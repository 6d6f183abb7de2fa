-- ===== src/Base/Text.antt =====
-- Text as the list of its code points, with the tests of Go's `strings` that the code calls.
use Prim.Native.Nat.{ℕ}
use Prim.Native.Char.{code}
use Prim.Native.String.{String}
use mathlib.Core.Path.{◌≡◌, ◌∙◌, refl}
use mathlib.Core.Logic.{◌↔◌, inl, inr}
use mathlib.Core.Bool.{Bool, true, false}
use mathlib.Core.Option.{Option, none, some}
use mathlib.Core.List.{List, [], ◌∷◌, ◌++◌, append_assoc}
use native.Mathlib.Omega.{arith}
use swarmcli_cd.Base.Tests.{Option-cases, ltb, ◌==◌, if◌then◌else◌}

abbrev pub Str : Type 0
Str = List ℕ

-- The code points of a literal.
abbrev pub str : String → Str
str String.[] = []
str (String.◌∷◌ c s) = code c ∷ str s

-- `a == b` on strings.
unfoldable pub seq : Str → Str → Bool
seq [] [] = true
seq [] (y ∷ ys) = false
seq (x ∷ xs) [] = false
seq (x ∷ xs) (y ∷ ys) = if x == y then seq xs ys else false

pub seq_iff : (a b : Str) → (seq a b ≡ true) ↔ (a ≡ b)
unfolding seq
seq_iff [] [] = ground arith
seq_iff [] (y ∷ ys) = ground arith
seq_iff (x ∷ xs) [] = ground arith
seq_iff (x ∷ xs) (y ∷ ys) = ground (arith, seq_iff xs ys)

pub seq_refl : (a : Str) → seq a a ≡ true
seq_refl a = (seq_iff a a).1 refl

-- `strings.CutPrefix(s, prefix)`: what follows the prefix, if `s` begins with it.
unfoldable pub cut_prefix : Str → Str → Option Str
cut_prefix s [] = some s
cut_prefix [] (p ∷ ps) = none
cut_prefix (c ∷ s) (p ∷ ps) = if c == p then cut_prefix s ps else none

pub cut_prefix-append : (p s : Str) → cut_prefix (p ++ s) p ≡ some s
unfolding cut_prefix
cut_prefix-append [] s = refl
cut_prefix-append (c ∷ p) s = ground (arith, cut_prefix-append p s)

pub append_of_cut_prefix : (s p r : Str) → cut_prefix s p ≡ some r → s ≡ p ++ r
unfolding cut_prefix
append_of_cut_prefix s [] r h = ground arith
append_of_cut_prefix [] (c ∷ p) r h = ground arith
append_of_cut_prefix (d ∷ s) (c ∷ p) r h = ground (arith, append_of_cut_prefix s p r)

-- `strings.HasPrefix(s, prefix)`.
abbrev pub has_prefix : Str → Str → Bool
has_prefix s p = elim (cut_prefix s p) [ none ↦ false | some _ ↦ true ]

pub has_prefix_iff :
    (s p : Str) (u : ℕ) → (has_prefix s (p ++ (u ∷ [])) ≡ true) ↔ ((r : Str) × (s ≡ p ++ (u ∷ r)))
has_prefix_iff s p u = (found, λ (r, e). shown r e)
  where
    found : has_prefix s (p ++ (u ∷ [])) ≡ true → (r : Str) × (s ≡ p ++ (u ∷ r))
    found h = elim (Option-cases (cut_prefix s (p ++ (u ∷ [])))) [
      | inl e ↦ ground arith
      | inr (r, e) ↦ (r, append_of_cut_prefix s (p ++ (u ∷ [])) r e ∙ append_assoc p (u ∷ []) r)
    ]

    shown : (r : Str) → s ≡ p ++ (u ∷ r) → has_prefix s (p ++ (u ∷ [])) ≡ true
    shown r e = ground (arith, append_assoc p (u ∷ []) r, cut_prefix-append (p ++ (u ∷ [])) r)

pub starts_iff : (s p : Str) → (has_prefix s p ≡ true) ↔ ((r : Str) × (s ≡ p ++ r))
starts_iff s p = (found, λ (r, e). ground (arith, cut_prefix-append p r))
  where
    found : has_prefix s p ≡ true → (r : Str) × (s ≡ p ++ r)
    found h = elim (Option-cases (cut_prefix s p)) [
      | inl e ↦ ground arith
      | inr (r, e) ↦ (r, append_of_cut_prefix s p r e)
    ]

-- `strings.ContainsRune(s, c)`, and `strings.Contains` with a text of one character.
unfoldable pub has_rune : ℕ → Str → Bool
has_rune c [] = false
has_rune c (x ∷ xs) = if x == c then true else has_rune c xs

-- `a <= b` on strings, in the order of their code points.
unfoldable pub compare_str : Str → Str → Bool
compare_str [] b = true
compare_str (x ∷ xs) [] = false
compare_str (x ∷ xs) (y ∷ ys) =
    if ltb x y then true else if x == y then compare_str xs ys else false

pub compare_str_total : (a b : Str) → compare_str a b ≡ false → compare_str b a ≡ true
unfolding compare_str
compare_str_total [] b h = ground arith
compare_str_total (x ∷ xs) [] h = refl
compare_str_total (x ∷ xs) (y ∷ ys) h = ground (arith, compare_str_total xs ys)

pub compare_str_trans :
    (a b c : Str) → compare_str a b ≡ true → compare_str b c ≡ true → compare_str a c ≡ true
unfolding compare_str
compare_str_trans [] b c h k = refl
compare_str_trans (x ∷ xs) [] c h k = ground arith
compare_str_trans (x ∷ xs) (y ∷ ys) [] h k = ground arith
compare_str_trans (x ∷ xs) (y ∷ ys) (z ∷ zs) h k = ground (arith, compare_str_trans xs ys zs)
