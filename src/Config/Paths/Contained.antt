-- ===== src/Config/Paths/Contained.antt =====
-- What repoPath of config/config.go accepts.
use swarmcli_cd.Base.{
  ℕ, suc, ◌-◌, ◌≡◌, ◌≢◌, ◌↔◌, refl, ◌∙◌, Bool, true, false, not, ◌&&◌, none, List, [], ◌∷◌, ◌++◌,
  arith, Str, seq, cut_prefix, has_rune, length, All, ◌==◌, ltb, if◌then◌else◌,
}
use swarmcli_cd.Config.Paths.{
  slash, dot_dot, is_abs, onto_first, split, is_idle, backtrack, clean_step, clean_elements,
  join_back, or_dot, clean, goes_up, repo_path,
}

-- A walk along a path's elements from that many levels below the root, which may not leave the root
-- at any step.
unfoldable pub stays_inside : ℕ → List Str → Bool
stays_inside depth [] = true
stays_inside depth (c ∷ cs) =
    let same = stays_inside depth cs in
    let up = stays_inside (depth - 1) cs in
    let down = stays_inside (suc depth) cs in
    if is_idle c then same else if seq c dot_dot then ltb 0 depth && up else down

-- the first element that was written is `..`
abbrev bottom_up : List Str → Bool
bottom_up [] = false
bottom_up (x ∷ []) = seq x dot_dot
bottom_up (x ∷ (y ∷ ys)) = bottom_up (y ∷ ys)

abbrev NoUp : List Str → Type 0
NoUp = All (λ x. seq x dot_dot ≡ false)

abbrev NoSlash : List Str → Type 0
NoSlash = All (λ x. has_rune slash x ≡ false)

goes_up-join : (s x : Str) → goes_up (s ++ (slash ∷ x)) ≡ goes_up s
unfolding seq cut_prefix
goes_up-join [] x = ground arith
goes_up-join (a ∷ []) x = ground arith
goes_up-join (a ∷ (b ∷ [])) x = ground arith
goes_up-join (a ∷ (b ∷ (c ∷ s))) x = ground arith

goes_up_of_element : (x : Str) → has_rune slash x ≡ false → goes_up x ≡ seq x dot_dot
unfolding seq cut_prefix has_rune
goes_up_of_element [] h = ground arith
goes_up_of_element (a ∷ []) h = ground arith
goes_up_of_element (a ∷ (b ∷ [])) h = ground arith
goes_up_of_element (a ∷ (b ∷ (c ∷ s))) h = ground arith

goes_up-join_back : (xs : List Str) → NoSlash xs → goes_up (join_back xs) ≡ bottom_up xs
unfolding join_back seq cut_prefix
goes_up-join_back [] h = refl
goes_up-join_back (x ∷ []) h = goes_up_of_element x h.0
goes_up-join_back (x ∷ (y ∷ ys)) h =
    goes_up-join (join_back (y ∷ ys)) x ∙ goes_up-join_back (y ∷ ys) h.1

goes_up-or_dot : (s : Str) → goes_up (or_dot s) ≡ goes_up s
unfolding seq cut_prefix
goes_up-or_dot [] = refl
goes_up-or_dot (c ∷ cs) = refl

onto_first-NoSlash :
    (c : ℕ) (xs : List Str) → (c == slash) ≡ false → NoSlash xs → NoSlash (onto_first c xs)
unfolding has_rune
onto_first-NoSlash c [] h n = ground arith
onto_first-NoSlash c (x ∷ xs) h n = ground arith

split-NoSlash : (p : Str) → NoSlash (split p)
unfolding split has_rune
split-NoSlash [] = ground arith
split-NoSlash (c ∷ cs) = ground (arith, split-NoSlash cs, onto_first-NoSlash c (split cs))

backtrack-NoSlash : (out : List Str) → NoSlash out → NoSlash (backtrack false out)
unfolding has_rune
backtrack-NoSlash [] n = (refl, tt)
backtrack-NoSlash (x ∷ xs) n = ground arith

clean_elements-NoSlash :
    (out cs : List Str) → NoSlash out → NoSlash cs → NoSlash (clean_elements false out cs)
unfolding clean_elements
clean_elements-NoSlash out [] n m = n
clean_elements-NoSlash out (c ∷ cs) n m =
    clean_elements-NoSlash (clean_step false out c) cs (ground (arith, backtrack-NoSlash out)) m.1

backtrack-bottom_up :
    (out : List Str) → bottom_up out ≡ true → bottom_up (backtrack false out) ≡ true
unfolding seq
backtrack-bottom_up [] h = refl
backtrack-bottom_up (x ∷ []) h = ground arith
backtrack-bottom_up (x ∷ (y ∷ ys)) h = ground arith

push-bottom_up : (c : Str) (out : List Str) → bottom_up out ≡ true → bottom_up (c ∷ out) ≡ true
push-bottom_up c [] h = ground arith
push-bottom_up c (x ∷ xs) h = h

-- Once a `..` stands first it stays.
clean_elements-bottom_up :
    (out cs : List Str) → bottom_up out ≡ true → bottom_up (clean_elements false out cs) ≡ true
unfolding clean_elements
clean_elements-bottom_up out [] h = h
clean_elements-bottom_up out (c ∷ cs) h =
    clean_elements-bottom_up (clean_step false out c) cs
      (ground (arith, backtrack-bottom_up out, push-bottom_up c out))

bottom_up-NoUp : (out : List Str) → NoUp out → bottom_up out ≡ false
bottom_up-NoUp [] n = refl
bottom_up-NoUp (x ∷ []) n = n.0
bottom_up-NoUp (x ∷ (y ∷ ys)) n = bottom_up-NoUp (y ∷ ys) n.1

clean_elements-walk :
    (out cs : List Str)
    → NoUp out
    → bottom_up (clean_elements false out cs) ≡ not (stays_inside (length out) cs)
unfolding clean_elements stays_inside seq
clean_elements-walk out [] n = bottom_up-NoUp out n
clean_elements-walk [] (c ∷ cs) n = ground (
  arith,
  clean_elements-walk [] cs tt,
  clean_elements-walk (c ∷ []) cs,
  clean_elements-bottom_up (dot_dot ∷ []) cs refl,
)
clean_elements-walk (x ∷ xs) (c ∷ cs) n = ground (
  arith,
  n,
  clean_elements-walk (x ∷ xs) cs n,
  clean_elements-walk (c ∷ (x ∷ xs)) cs,
  clean_elements-walk xs cs n.1,
)

-- A path is accepted exactly if it is not empty, not absolute, and a walk along its elements from
-- the root of the repository leaves the root at no step.
pub repo_path_iff :
    (p : Str)
    → (repo_path p ≡ none) ↔ ((p ≢ []) × (is_abs p ≡ false) × (stays_inside 0 (split p) ≡ true))
unfolding repo_path clean
repo_path_iff p =
    let out = clean_elements false [] (split p) in
    let e =
      goes_up-or_dot (join_back out)
      ∙ goes_up-join_back out (clean_elements-NoSlash [] (split p) tt (split-NoSlash p))
      ∙ clean_elements-walk [] (split p) tt in
    ground (arith, e)
