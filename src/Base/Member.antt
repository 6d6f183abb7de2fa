-- ===== src/Base/Member.antt =====
-- Membership in a list of texts: Go's `map[string]struct{}` built from a list, and its lookups.
use mathlib.Core.Path.{◌≡◌, refl, sym, ap, subst}
use mathlib.Core.Logic.{◌↔◌, ◌⊎◌, inl, inr}
use mathlib.Core.Bool.{Bool, true, false}
use mathlib.Core.List.{List, [], ◌∷◌, ◌++◌, map}
use native.Mathlib.Omega.{arith}
use swarmcli_cd.Base.Tests.{if◌then◌else◌, Bool-cases}
use swarmcli_cd.Base.Lists.{keep, All}
use swarmcli_cd.Base.Text.{Str, seq, seq_iff}

-- `a` is an item of the list.
abbrev pub In : {A : Type 0} → A → List A → Type 0
In a [] = ⊥
In a (x ∷ xs) = (a ≡ x) ⊎ In a xs

-- No item stands twice.
abbrev pub Distinct : {A : Type 0} → List A → Type 0
Distinct [] = Unit
Distinct (x ∷ xs) = (¬ (In x xs)) × Distinct xs

-- `_, ok := set[name]`, and `slices.Contains(set, name)`.
unfoldable pub elem : Str → List Str → Bool
elem a [] = false
elem a (x ∷ xs) = if seq a x then true else elem a xs

pub elem_iff : (a : Str) (xs : List Str) → (elem a xs ≡ true) ↔ In a xs
unfolding elem
elem_iff a [] = ground arith
elem_iff a (x ∷ xs) = ground (arith, seq_iff a x, elem_iff a xs)

-- What `keep` keeps, and what a map yields.
module _ {A : Type 0} where
  pub In-keep : (p : A → Bool) (a : A) (xs : List A) → In a (keep p xs) ↔ (In a xs × (p a ≡ true))
  In-keep p a [] = ground arith
  In-keep p a (x ∷ xs) = elim (Bool-cases (p x)) [
    | inl e ↦ ground (arith, In-keep p a xs)
    | inr e ↦ ground (arith, In-keep p a xs)
  ]

  pub In-append : (a : A) (xs ys : List A) → In a (xs ++ ys) ↔ (In a xs ⊎ In a ys)
  In-append a [] ys = ground arith
  In-append a (x ∷ xs) ys = ground (arith, In-append a xs ys)

  pub In-map : {B : Type 0} (f : A → B) (a : A) (xs : List A) → In a xs → In (f a) (map f xs)
  In-map f a [] h = h
  In-map f a (x ∷ xs) (inl e) = inl (ap f e)
  In-map f a (x ∷ xs) (inr h) = inr (In-map f a xs h)

  pub of_In-map :
      {B : Type 0} (f : A → B) (b : B) (xs : List A)
      → In b (map f xs)
      → (a : A) × In a xs × (b ≡ f a)
  of_In-map f b [] h = absurd h
  of_In-map f b (x ∷ xs) (inl e) = (x, inl refl, e)
  of_In-map f b (x ∷ xs) (inr h) = let (a, m, e) = of_In-map f b xs h in (a, inr m, e)

  pub of_All : (P : A → Type 0) (a : A) (xs : List A) → All P xs → In a xs → P a
  of_All P a [] h m = absurd m
  of_All P a (x ∷ xs) h (inl e) = subst P (sym e) h.0
  of_All P a (x ∷ xs) h (inr m) = of_All P a xs h.1 m
