-- ===== src/Tests/Stamps.antt =====
-- Stamps and names of application/owner.go at concrete inputs.
use swarmcli_cd.Base.{
  ℕ, ◌≡◌, ◌≢◌, ◌↔◌, refl, true, false, none, some, Str, str, [], if◌then◌else◌, arith, leb, ◌&&◌,
  ◌+◌, has_rune, cut_prefix,
}
use swarmcli_cd.Owner.{
  slash, scoped, to_lower, owner_id, app_from_owner_id, validate_controller_id, has_space, is_space,
  releases_collide,
}
use swarmcli_cd.Owner.Stamp.{
  app_from_owner_id-owner_id, owner_id_of_app_from_owner_id, other_controllers_stamp,
}
use swarmcli_cd.Owner.Scope.{releases_collide_iff}

-- Lower case in ASCII.
abbrev ascii_lower : ℕ → ℕ
ascii_lower c = if leb b'A' c && leb c b'Z' then c + 32 else c

shop_has_no_slash : has_rune slash (str "shop") ≡ false
unfolding has_rune
shop_has_no_slash = refl

app_from_owner_id-owner_id_example :
    app_from_owner_id (str "prod") (owner_id (str "prod") (str "shop")) ≡ some (str "shop")
app_from_owner_id-owner_id_example =
    app_from_owner_id-owner_id (str "prod") (str "shop") (ground arith) shop_has_no_slash

prod_stamp : app_from_owner_id (str "prod") (str "cd/prod/shop") ≡ some (str "shop")
unfolding app_from_owner_id cut_prefix has_rune
prod_stamp = refl

owner_id_of_app_from_owner_id_example :
    (str "cd/prod/shop" ≡ owner_id (str "prod") (str "shop"))
    × (str "shop" ≢ [])
    × (has_rune slash (str "shop") ≡ false)
owner_id_of_app_from_owner_id_example =
    owner_id_of_app_from_owner_id (str "prod") (str "cd/prod/shop") (str "shop") prod_stamp

prod_is_valid : validate_controller_id (str "prod") ≡ none
unfolding validate_controller_id has_rune has_space is_space
prod_is_valid = refl

test_is_valid : validate_controller_id (str "test") ≡ none
unfolding validate_controller_id has_rune has_space is_space
test_is_valid = refl

other_controllers_stamp_example :
    app_from_owner_id (str "test") (owner_id (str "prod") (str "shop")) ≡ none
other_controllers_stamp_example =
    other_controllers_stamp (str "prod") (str "test") (str "shop") prod_is_valid test_is_valid
      (ground arith)

releases_collide_iff_example : (releases_collide ascii_lower (str "Web") (str "web_db") ≡ true) ↔ (
    (str "Web" ≢ str "web_db")
    × ((x : Str) × (y : Str) × (to_lower ascii_lower (scoped (str "Web") x)
          ≡ to_lower ascii_lower (scoped (str "web_db") y))))
releases_collide_iff_example = releases_collide_iff ascii_lower (str "Web") (str "web_db") refl
