-- ===== src/Base/Fallible.antt =====
-- A value or an error: Go's `(T, error)`, where the value counts only if the error is nil; and checks
-- that return an error or nil, one after the other.
use mathlib.Core.Path.{◌≡◌, refl}
use mathlib.Core.Logic.{◌↔◌, ◌⊎◌, inl, inr}
use mathlib.Core.Bool.{Bool, true, false}
use mathlib.Core.Option.{Option, none, some}
use mathlib.Core.List.{List, [], ◌∷◌}
use native.Mathlib.Omega.{arith}
use swarmcli_cd.Base.Tests.{Option-cases}
use swarmcli_cd.Base.Lists.{All}
use swarmcli_cd.Base.Member.{In}

pub data Outcome {ℓ} (E : Type 0) (A : Type ℓ) : Type ℓ where
  ok : A → Outcome E A
  err : E → Outcome E A

pub Outcome-cases {ℓ} :
    {E : Type 0} {A : Type ℓ} (o : Outcome E A) → ((a : A) × (o ≡ ok a)) ⊎ ((e : E) × (o ≡ err e))
Outcome-cases (ok a) = inl (a, refl)
Outcome-cases (err e) = inr (e, refl)

-- `if cond { return err }`
abbrev pub refuse : {E : Type 0} → Bool → E → Option E
refuse true e = some e
refuse false e = none

-- A check, and what follows it if that found nothing.
infixr 2 ◌then◌
abbrev pub ◌then◌ : {E : Type 0} → Option E → Option E → Option E
none then next = next
some e then next = some e

-- A check on each item of a list.
unfoldable pub check_all : {A E : Type 0} → (A → Option E) → List A → Option E
check_all check [] = none
check_all check (x ∷ xs) = let rest = check_all check xs in check x then rest

-- `v, err := read(); if err != nil { return err }`, and the checks on `v` that follow.
abbrev pub given : {A X E : Type 0} → (X → E) → Outcome X A → (A → Option E) → Option E
given wrap (ok a) check = check a
given wrap (err x) check = some (wrap x)

-- No item is refused exactly if each item has what its check asks for.
pub check_all_iff :
    {A E : Type 0} (check : A → Option E) (P : A → Type 0)
    → ((x : A) → (check x ≡ none) ↔ P x)
    → (xs : List A) → (check_all check xs ≡ none) ↔ All P xs
unfolding check_all
check_all_iff check P h [] = ground arith
check_all_iff check P h (x ∷ xs) = ground (arith, h x, check_all_iff check P h xs)

pub then_iff : {E : Type 0} (a b : Option E) → ((a then b) ≡ none) ↔ ((a ≡ none) × (b ≡ none))
then_iff a b = ground arith

-- What follows a read finds no error exactly if the read answers and its answer has what they ask for.
pub given_iff :
    {A X E : Type 0} (wrap : X → E) (o : Outcome X A) (check : A → Option E) (P : A → Type 0)
    → ((a : A) → (check a ≡ none) ↔ P a)
    → (given wrap o check ≡ none) ↔ ((a : A) × (o ≡ ok a) × P a)
given_iff wrap (ok a) check P h = (λ k. (a, refl, (h a).0 k), λ (b, e, k). ground (arith, h a))
given_iff wrap (err x) check P h = (λ k. cc, λ (b, e, k). cc)

-- An error of a loop of checks is that of an item.
pub check_all-some :
    {A E : Type 0} (check : A → Option E) (e : E) (xs : List A)
    → check_all check xs ≡ some e
    → (x : A) × In x xs × (check x ≡ some e)
unfolding check_all
check_all-some check e [] h = cc
check_all-some check e (x ∷ xs) h = elim (Option-cases (check x)) [
  | inl n ↦ let (y, m, q) = check_all-some check e xs (ground arith) in (y, inr m, q)
  | inr (f, n) ↦ (x, inl refl, ground arith)
]
