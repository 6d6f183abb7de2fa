-- ===== src/Prune/Claims.antt =====
-- The resource rule: prune/prune.go, Undeclared and Claim.
use swarmcli_cd.Base.{
  ◌≡◌, ◌↔◌, ◌⊎◌, inl, inr, true, List, [], ◌∷◌, arith, Str, elem_iff, In, compare_str,
  compare_str_total, compare_str_trans, Bool-cases,
}
use swarmcli_cd.Prune.Rule.{insert_sorted, sort_names, not_in, undeclared, claim}

-- No item stands before a smaller one.
abbrev pub AllAbove : Str → List Str → Type 0
AllAbove x [] = Unit
AllAbove x (y ∷ ys) = (compare_str x y ≡ true) × AllAbove x ys

abbrev pub IsSorted : List Str → Type 0
IsSorted [] = Unit
IsSorted (x ∷ xs) = AllAbove x xs × IsSorted xs

In-insert_sorted : (a x : Str) (xs : List Str) → In a (insert_sorted x xs) ↔ ((a ≡ x) ⊎ In a xs)
unfolding insert_sorted
In-insert_sorted a x [] = ground arith
In-insert_sorted a x (y ∷ ys) = ground (arith, In-insert_sorted a x ys)

pub In-sort_names : (a : Str) (xs : List Str) → In a (sort_names xs) ↔ In a xs
unfolding sort_names
In-sort_names a [] = ground arith
In-sort_names a (x ∷ xs) = ground (arith, In-insert_sorted a x (sort_names xs), In-sort_names a xs)

AllAbove-trans :
    (x y : Str) (ys : List Str) → compare_str x y ≡ true → AllAbove y ys → AllAbove x ys
AllAbove-trans x y [] h k = tt
AllAbove-trans x y (z ∷ zs) h k = (compare_str_trans x y z h k.0, AllAbove-trans x y zs h k.1)

AllAbove-insert_sorted :
    (a x : Str) (xs : List Str)
    → compare_str a x ≡ true
    → AllAbove a xs
    → AllAbove a (insert_sorted x xs)
unfolding insert_sorted
AllAbove-insert_sorted a x [] h k = ground arith
AllAbove-insert_sorted a x (y ∷ ys) h k = ground (arith, AllAbove-insert_sorted a x ys h k.1)

insert_sorted-IsSorted : (x : Str) (xs : List Str) → IsSorted xs → IsSorted (insert_sorted x xs)
unfolding insert_sorted
insert_sorted-IsSorted x [] h = ground arith
insert_sorted-IsSorted x (y ∷ ys) h = elim (Bool-cases (compare_str x y)) [
  | inl e ↦ rw e ((e, AllAbove-trans x y ys e h.0), h)
  | inr e ↦
      rw e (
        AllAbove-insert_sorted y x ys (compare_str_total x y e) h.0,
        insert_sorted-IsSorted x ys h.1,
      )
]

sort_names-IsSorted : (xs : List Str) → IsSorted (sort_names xs)
unfolding sort_names
sort_names-IsSorted [] = tt
sort_names-IsSorted (x ∷ xs) = insert_sorted-IsSorted x (sort_names xs) (sort_names-IsSorted xs)

In-not_in :
    (a : Str) (declared xs : List Str) → In a (not_in declared xs) ↔ (In a xs × (¬ (In a declared)))
unfolding not_in
In-not_in a declared [] = ground arith
In-not_in a declared (x ∷ xs) = ground (arith, elem_iff x declared, In-not_in a declared xs)

-- The candidates are, in order, exactly the running names that are not declared.
pub undeclared_exact :
    (running declared : List Str)
    → ((a : Str) → In a (undeclared running declared) ↔ (In a running × (¬ (In a declared))))
      × IsSorted (undeclared running declared)
unfolding undeclared
undeclared_exact [] declared = (λ a. ground arith, tt)
undeclared_exact (x ∷ xs) declared = (
  λ a. ground (arith, In-sort_names a (not_in declared (x ∷ xs)), In-not_in a declared (x ∷ xs)),
  sort_names-IsSorted (not_in declared (x ∷ xs)),
)

-- Each candidate goes to one side: to the claimed ones if a revision declared it, else to the rest.
pub claim_splits :
    (candidates declared : List Str) (a : Str)
    → (In a (claim candidates declared).0 ↔ (In a candidates × In a declared))
      × (In a (claim candidates declared).1 ↔ (In a candidates × (¬ (In a declared))))
unfolding claim
claim_splits [] declared a = ground arith
claim_splits (x ∷ xs) declared a = ground (arith, elem_iff x declared, claim_splits xs declared a)
