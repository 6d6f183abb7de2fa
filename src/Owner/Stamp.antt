-- ===== src/Owner/Stamp.antt =====
-- The owner stamp and its reading: application/owner.go, OwnerID and AppFromOwnerID.
use mathlib.Core.Logic.{◌≢◌}
use swarmcli_cd.Base.{
  ℕ, ◌≡◌, refl, sym, ◌∙◌, false, Option, none, some, [], ◌∷◌, ◌++◌, append_assoc, arith, Str,
  cut_prefix, cut_prefix-append, append_of_cut_prefix, has_rune, Option-cases, Bool-cases, inl, inr,
}
use swarmcli_cd.Owner.{
  owner_prefix, slash, or_default, owner_id, app_from_owner_id, validate_controller_id, app_of,
}

-- What the controller writes before an application's name.
abbrev stem : Str → Str
stem c = owner_prefix ++ (or_default c ++ (slash ∷ []))

owner_id-eq-stem : (c a : Str) → owner_id c a ≡ stem c ++ a
unfolding owner_id
owner_id-eq-stem c a = simp append_assoc

-- An application's name that is not empty and holds no slash is read back from its own stamp.
pub app_from_owner_id-owner_id :
    (c a : Str) → a ≢ [] → has_rune slash a ≡ false → app_from_owner_id c (owner_id c a) ≡ some a
unfolding app_from_owner_id
app_from_owner_id-owner_id c [] h k = absurd (h refl)
app_from_owner_id-owner_id c (x ∷ a) h k =
    rw (owner_id-eq-stem c (x ∷ a), cut_prefix-append (stem c) (x ∷ a), k)

-- What a reading leaves of the text after the stem.
app_of-some :
    (o : Option Str) (a : Str)
    → app_of o ≡ some a
    → (o ≡ some a) × (a ≢ []) × (has_rune slash a ≡ false)
app_of-some none a h = cc
app_of-some (some []) a h = cc
app_of-some (some (x ∷ r)) a h = elim (Bool-cases (has_rune slash (x ∷ r))) [
  | inl e ↦ ground arith
  | inr e ↦ ground arith
]

-- What is read from a stamp is an application's name, and the stamp is the one that this controller
-- writes for it.
pub owner_id_of_app_from_owner_id :
    (c id a : Str)
    → app_from_owner_id c id ≡ some a
    → (id ≡ owner_id c a) × (a ≢ []) × (has_rune slash a ≡ false)
unfolding app_from_owner_id
owner_id_of_app_from_owner_id c id a h =
    let (e, ne, ns) = app_of-some (cut_prefix id (stem c)) a h in
    (append_of_cut_prefix id (stem c) a e ∙ sym (owner_id-eq-stem c a), ne, ns)

-- Two texts without the mark that agree once each is followed by it and more are equal.
unmarked_prefix :
    (u : ℕ) (p q s t : Str)
    → has_rune u p ≡ false
    → has_rune u q ≡ false
    → p ++ (u ∷ s) ≡ q ++ (u ∷ t)
    → p ≡ q
unfolding has_rune
unmarked_prefix u [] [] s t hp hq h = refl
unmarked_prefix u [] (y ∷ q) s t hp hq h = ground arith
unmarked_prefix u (x ∷ p) [] s t hp hq h = ground arith
unmarked_prefix u (x ∷ p) (y ∷ q) s t hp hq h = ground (arith, unmarked_prefix u p q s t)

-- both stamps begin with `cd/`
tail_of_prefix : {x y : Str} → owner_prefix ++ x ≡ owner_prefix ++ y → x ≡ y
tail_of_prefix h = ground arith

or_default_of_valid : (c : Str) → validate_controller_id c ≡ none → or_default c ≡ c
unfolding validate_controller_id
or_default_of_valid [] h = ground arith
or_default_of_valid (x ∷ c) h = refl

no_slash_of_valid : (c : Str) → validate_controller_id c ≡ none → has_rune slash c ≡ false
unfolding validate_controller_id
no_slash_of_valid c h = ground arith

-- Of two controllers with different valid ids, neither reads an application out of a stamp that the
-- other wrote, whatever the application is called.
pub other_controllers_stamp :
    (c d a : Str)
    → validate_controller_id c ≡ none
    → validate_controller_id d ≡ none
    → c ≢ d
    → app_from_owner_id d (owner_id c a) ≡ none
other_controllers_stamp c d a vc vd ne = elim (Option-cases (app_from_owner_id d (owner_id c a))) [
  | inl e ↦ e
  | inr (b, e) ↦ absurd (ne (same b (owner_id_of_app_from_owner_id d (owner_id c a) b e).0))
]
  where
    same : (b : Str) → owner_id c a ≡ owner_id d b → c ≡ d
    same b e =
        let p : or_default c ≡ or_default d =
          unmarked_prefix slash (or_default c) (or_default d) a b
            (rw (or_default_of_valid c vc) (no_slash_of_valid c vc))
            (rw (or_default_of_valid d vd) (no_slash_of_valid d vd))
            (tail_of_prefix (unfold owner_id in e)) in
        cc (p, or_default_of_valid c vc, or_default_of_valid d vd)
