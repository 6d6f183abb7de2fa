-- ===== src/Owner.antt =====
-- application/owner.go: the stamp that says which controller and which application installed a
-- release, and the rule that keeps two release names from sharing a scope.
pub mod Stamp
pub mod Scope
use swarmcli_cd.Base.{
  ℕ, Bool, true, false, not, ◌&&◌, ◌||◌, Option, none, some, List, [], ◌∷◌, ◌++◌, map, Str, str,
  seq, cut_prefix, has_prefix, has_rune, is_empty, leb, ◌==◌, if◌then◌else◌,
}

abbrev pub owner_prefix : Str
owner_prefix = str "cd/"

abbrev pub default_controller_id : Str
default_controller_id = str "default"

abbrev pub slash : ℕ
slash = b'/'

-- `if controller == "" { controller = DefaultControllerID }`
abbrev pub or_default : Str → Str
or_default [] = default_controller_id
or_default (c ∷ cs) = c ∷ cs

unfoldable pub owner_id : Str → Str → Str
owner_id controller app = owner_prefix ++ (or_default controller ++ (slash ∷ app))

-- The guard after `CutPrefix`: an empty rest, or one with a further slash, names no application.
abbrev app_of : Option Str → Option Str
app_of none = none
app_of (some app) = if is_empty app || has_rune slash app then none else some app

unfoldable pub app_from_owner_id : Str → Str → Option Str
app_from_owner_id controller id =
    app_of (cut_prefix id (owner_prefix ++ (or_default controller ++ (slash ∷ []))))

-- `unicode.IsSpace`: the code points with the property White_Space.
unfoldable pub is_space : ℕ → Bool
is_space c =
    (leb 9 c && leb c 13)
    || c == 32
    || c == 0x85
    || c == 0xa0
    || c == 0x1680
    || (leb 0x2000 c && leb c 0x200a)
    || c == 0x2028
    || c == 0x2029
    || c == 0x202f
    || c == 0x205f
    || c == 0x3000

-- `strings.IndexFunc(id, unicode.IsSpace) >= 0`
unfoldable pub has_space : Str → Bool
unfolding is_space
has_space [] = false
has_space (c ∷ cs) = if is_space c then true else has_space cs

pub data IdError : Type 0 where
  empty_id separator_in_id space_in_id : IdError

-- `none` is Go's nil error.
unfoldable pub validate_controller_id : Str → Option IdError
validate_controller_id id =
    if is_empty id
    then some empty_id
    else if has_rune slash id || has_rune b':' id
    then some separator_in_id
    else if has_space id
    then some space_in_id
    else none

abbrev pub underscore : ℕ
underscore = b'_'

-- The name that a stack gives to what it owns.
abbrev pub scoped : Str → Str → Str
scoped release name = release ++ (underscore ∷ name)

-- `lower` is `unicode.ToLower`, which `strings.ToLower` applies to each rune.
module _ (lower : ℕ → ℕ) where
  abbrev pub to_lower : Str → Str
  to_lower s = map lower s

  unfoldable pub releases_collide : Str → Str → Bool
  releases_collide a b =
      not (seq a b)
      && (seq (to_lower a) (to_lower b)
          || has_prefix (to_lower a) (to_lower b ++ (underscore ∷ []))
          || has_prefix (to_lower b) (to_lower a ++ (underscore ∷ [])))
