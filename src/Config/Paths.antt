-- ===== src/Config/Paths.antt =====
-- config/config.go, repoPath, with the part of Go's package `path` that it calls.
pub mod Contained
use swarmcli_cd.Base.{
  ℕ, Bool, true, false, not, ◌&&◌, ◌||◌, Option, none, some, List, [], ◌∷◌, ◌++◌, Str, str, seq,
  has_prefix, is_empty, ◌==◌, if◌then◌else◌,
}

abbrev pub slash : ℕ
slash = b'/'

abbrev pub dot : Str
dot = str "."

abbrev pub dot_dot : Str
dot_dot = str ".."

-- `path.IsAbs`
abbrev pub is_abs : Str → Bool
is_abs [] = false
is_abs (c ∷ cs) = c == slash

abbrev pub onto_first : ℕ → List Str → List Str
onto_first c [] = (c ∷ []) ∷ []
onto_first c (x ∷ xs) = (c ∷ x) ∷ xs

-- A path's elements, between its slashes.
unfoldable pub split : Str → List Str
split [] = [] ∷ []
split (c ∷ cs) = let rest = split cs in if c == slash then [] ∷ rest else onto_first c rest

-- An element that `path.Clean` drops.
abbrev pub is_idle : Str → Bool
is_idle c = is_empty c || seq c dot

-- `path.Clean` on a `..`, at the elements that it has written, the last one first.
abbrev pub backtrack : Bool → List Str → List Str
backtrack rooted [] = if rooted then [] else dot_dot ∷ []
backtrack rooted (x ∷ xs) = if seq x dot_dot then dot_dot ∷ (x ∷ xs) else xs

abbrev pub clean_step : Bool → List Str → Str → List Str
clean_step rooted out c =
    if is_idle c then out else if seq c dot_dot then backtrack rooted out else c ∷ out

unfoldable pub clean_elements : Bool → List Str → List Str → List Str
clean_elements rooted out [] = out
clean_elements rooted out (c ∷ cs) = clean_elements rooted (clean_step rooted out c) cs

-- The elements, the last one first, with slashes between them.
unfoldable pub join_back : List Str → Str
join_back [] = []
join_back (x ∷ []) = x
join_back (x ∷ (y ∷ ys)) = join_back (y ∷ ys) ++ (slash ∷ x)

abbrev pub or_dot : Str → Str
or_dot [] = dot
or_dot (c ∷ cs) = c ∷ cs

-- `path.Clean`
unfoldable pub clean : Str → Str
clean p =
    if is_abs p
    then slash ∷ join_back (clean_elements true [] (split p))
    else or_dot (join_back (clean_elements false [] (split p)))

-- `clean == ".." || strings.HasPrefix(clean, "../")`
abbrev pub goes_up : Str → Bool
goes_up s = seq s dot_dot || has_prefix s (dot_dot ++ (slash ∷ []))

pub data PathError : Type 0 where
  required : PathError
  not_relative escaping : Str → PathError

unfoldable pub repo_path : Str → Option PathError
repo_path p =
    if is_empty p
    then some required
    else if is_abs p
    then some (not_relative p)
    else if goes_up (clean p)
    then some (escaping p)
    else none
