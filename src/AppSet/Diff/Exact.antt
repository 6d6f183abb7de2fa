-- ===== src/AppSet/Diff/Exact.antt =====
-- The three lists of a diff, by membership.
use swarmcli_cd.Base.{
  ◌≡◌, ◌↔◌, inl, inr, sym, subst, ap, Bool, true, false, none, some, List, [], ◌∷◌, arith, Str,
  seq_iff, seq_refl, elem_iff, In, Distinct, Option-cases, Bool-cases,
}
use swarmcli_cd.Application.{Spec}
use swarmcli_cd.AppSet.Diff.{spec_names, find_spec, diff_desired, diff_running}

pub find_spec-none :
    (name : Str) (ss : List Spec) → (find_spec name ss ≡ none) ↔ (¬ (In name (spec_names ss)))
unfolding find_spec
find_spec-none name [] = ground arith
find_spec-none name (s ∷ ss) = ground (arith, seq_iff s.name name, find_spec-none name ss)

pub find_spec-some :
    (name : Str) (ss : List Spec) (t : Spec)
    → find_spec name ss ≡ some t
    → In t ss × (t.name ≡ name)
unfolding find_spec
find_spec-some name [] t h = ground arith
find_spec-some name (s ∷ ss) t h = elim (Option-cases (find_spec name ss)) [
  | inl e ↦ ground (arith, seq_iff s.name name)
  | inr (u, e) ↦ ground (arith, find_spec-some name ss u e)
]

pub In-spec_names : (t : Spec) (ss : List Spec) → In t ss → In t.name (spec_names ss)
In-spec_names t [] i = absurd i
In-spec_names t (s ∷ ss) (inl e) = inl (ap (λ (x : Spec). x.name) e)
In-spec_names t (s ∷ ss) (inr i) = inr (In-spec_names t ss i)

-- Where no name stands twice, a spec of the list is the one found under its name.
pub find_spec_of_In :
    (t : Spec) (ss : List Spec) → Distinct (spec_names ss) → In t ss → find_spec t.name ss ≡ some t
unfolding find_spec
find_spec_of_In t [] d i = absurd i
find_spec_of_In t (s ∷ ss) d (inl e) =
    let top : find_spec s.name (s ∷ ss) ≡ some s =
      rw ((find_spec-none s.name ss).1 d.0, seq_refl s.name) in
    subst (λ x. find_spec x.name (s ∷ ss) ≡ some x) (sym e) top
find_spec_of_In t (s ∷ ss) d (inr i) = rw (find_spec_of_In t ss d.1 i)

-- One round of a loop that keeps the specs with a property.
module _ (P : Spec → Type 0) (s t : Spec) (xs ys : List Spec) (ih : In t xs ↔ (In t ys × P t)) where
  kept : P s → In t (s ∷ xs) ↔ (In t (s ∷ ys) × P t)
  kept p = (to, from)
    where
      to : In t (s ∷ xs) → In t (s ∷ ys) × P t
      to (inl e) = (inl e, subst P (sym e) p)
      to (inr i) = (inr (ih.0 i).0, (ih.0 i).1)

      from : In t (s ∷ ys) × P t → In t (s ∷ xs)
      from (inl e, q) = inl e
      from (inr i, q) = inr (ih.1 (i, q))

  dropped : ¬ (P s) → In t xs ↔ (In t (s ∷ ys) × P t)
  dropped n = (λ i. (inr (ih.0 i).0, (ih.0 i).1), from)
    where
      from : In t (s ∷ ys) × P t → In t xs
      from (inl e, q) = absurd (n (subst P e q))
      from (inr i, q) = ih.1 (i, q)

module _ (deep_equal : Spec → Spec → Bool) where
  pub In-add :
      (running desired : List Spec) (t : Spec)
      → In t (diff_desired deep_equal running desired).0
        ↔ (In t desired × (¬ (In t.name (spec_names running))))
  unfolding diff_desired
  In-add running [] t = ground arith
  In-add running (s ∷ ss) t =
      let New : Spec → Type 0 = λ x. ¬ (In x.name (spec_names running)) in
      let ih = In-add running ss t in
      let rest = (diff_desired deep_equal running ss).0 in
      let f = find_spec-none s.name running in
      elim (Option-cases (find_spec s.name running)) [
        | inl e ↦ rw (e, In) (kept New s t rest ss ih (f.0 e))
        | inr (was, e) ↦ elim (Bool-cases (deep_equal was s)) [
          | inl b ↦ rw (e, b, In) (dropped New s t rest ss ih (λ n. cc (e, f.1 n)))
          | inr b ↦ rw (e, b, In) (dropped New s t rest ss ih (λ n. cc (e, f.1 n)))
        ]
      ]

  pub In-replace :
      (running desired : List Spec) (t : Spec)
      → In t (diff_desired deep_equal running desired).1 ↔ (
          In t desired
          × ((was : Spec) × (find_spec t.name running ≡ some was) × (deep_equal was t ≡ false)))
  unfolding diff_desired
  In-replace running [] t = ground arith
  In-replace running (s ∷ ss) t =
      let Changed : Spec → Type 0 =
        λ x. (was : Spec) × (find_spec x.name running ≡ some was) × (deep_equal was x ≡ false) in
      let ih = In-replace running ss t in
      let rest = (diff_desired deep_equal running ss).1 in
      elim (Option-cases (find_spec s.name running)) [
        | inl e ↦ rw (e, In) (dropped Changed s t rest ss ih (λ c. cc (e, c.1)))
        | inr (was, e) ↦ elim (Bool-cases (deep_equal was s)) [
          | inl b ↦ rw (e, b, In) (dropped Changed s t rest ss ih (not_changed s was e b))
          | inr b ↦ rw (e, b, In) (kept Changed s t rest ss ih (was, e, b))
        ]
      ]
    where
      not_changed :
          (s was : Spec)
          → find_spec s.name running ≡ some was
          → deep_equal was s ≡ true
          → ¬ ((w : Spec) × (find_spec s.name running ≡ some w) × (deep_equal w s ≡ false))
      not_changed s was e b (w, f, c) =
          let same : w ≡ was = cc in cc (b, subst (λ (x : Spec). deep_equal x s ≡ false) same c)

pub In-remove :
    (running : List Spec) (wanted : List Str) (n : Str)
    → In n (diff_running running wanted) ↔ (In n (spec_names running) × (¬ (In n wanted)))
unfolding diff_running
In-remove [] wanted n = ground arith
In-remove (s ∷ ss) wanted n = ground (arith, elem_iff s.name wanted, In-remove ss wanted n)
