-- ===== src/AppSet/Loop/Reached.antt =====
-- After a pass with no error the running specs are the desired ones: appset/loop.go, apply and diff.
use swarmcli_cd.Base.{
  ◌≡◌, ◌↔◌, ◌⊎◌, inl, inr, refl, sym, subst, ap, ◌∙◌, Bool, true, false, some, List, [], ◌∷◌, Str,
  Option-cases, Bool-cases, In, Distinct, elem, elem_iff,
}
use swarmcli_cd.Application.{Spec}
use swarmcli_cd.AppSet.Diff.{spec_names, specs, find_spec, diff_desired, diff_running, diff}
use swarmcli_cd.AppSet.Diff.Exact.{
  In-add, In-replace, In-remove, In-spec_names, find_spec-none, find_spec-some, find_spec_of_In,
}
use swarmcli_cd.AppSet.Loop.{World, Loop, apply, apply_removals, apply_replacements}
use swarmcli_cd.AppSet.Loop.Converge.{IsLawful, removals_lem, replacements_lem, additions_lem}

spec_named : (n : Str) (xs : List Spec) → In n (spec_names xs) → (d : Spec) × In d xs × (d.name ≡ n)
spec_named n [] i = absurd i
spec_named n (x ∷ xs) (inl e) = (x, inl refl, sym e)
spec_named n (x ∷ xs) (inr i) = let (d, j, e) = spec_named n xs i in (d, inr j, e)

same_of_some : (a b : Spec) → some a ≡ some b → a ≡ b
same_of_some a b e = cc

-- Where no name stands twice, a name has one spec.
same_spec :
    (xs : List Spec) (a b : Spec)
    → Distinct (spec_names xs)
    → In a xs
    → In b xs
    → a.name ≡ b.name
    → a ≡ b
same_spec xs a b d i j e =
    same_of_some a b
      (sym (find_spec_of_In a xs d i) ∙ (ap (λ n. find_spec n xs) e ∙ find_spec_of_In b xs d j))

In_of_not_not : (n : Str) (xs : List Str) → ¬ (¬ (In n xs)) → In n xs
In_of_not_not n xs h = elim (Bool-cases (elem n xs)) [
  | inl e ↦ (elem_iff n xs).0 e
  | inr e ↦ absurd (h (λ i. cc (e, (elem_iff n xs).1 i)))
]

module _ (deep_equal : Spec → Spec → Bool) where
  replace-Distinct :
      (ss desired : List Spec)
      → Distinct (spec_names desired)
      → Distinct (spec_names (diff_desired deep_equal ss desired).1)
  unfolding diff_desired
  replace-Distinct ss [] d = tt
  replace-Distinct ss (x ∷ xs) d =
      let ih = replace-Distinct ss xs d.1 in
      let fresh : ¬ (In x.name (spec_names (diff_desired deep_equal ss xs).1)) = λ i.
        let (y, j, e) = spec_named x.name (diff_desired deep_equal ss xs).1 i in
        d.0 (
          subst (λ n. In n (spec_names xs)) e
            (In-spec_names y xs ((In-replace deep_equal ss xs y).0 j).0)) in
      elim (Option-cases (find_spec x.name ss)) [
        | inl e ↦ rw (e, Distinct) ih
        | inr (was, e) ↦ elim (Bool-cases (deep_equal was x)) [
          | inl b ↦ rw (e, b, Distinct) ih
          | inr b ↦ rw (e, b, Distinct) (fresh, ih)
        ]
      ]

module _ (deep_equal : Spec → Spec → Bool)
    (equal : (a b : Spec) → (deep_equal a b ≡ true) ↔ (a ≡ b)) (ss desired : List Spec)
    (distinct : Distinct (spec_names ss)) (distinct' : Distinct (spec_names desired))
    (t : Spec) where
  abbrev Kept : Type 0
  Kept =
      In t ss
      × (¬ (In t.name (diff_running ss (spec_names desired))))
      × (¬ (In t.name (spec_names (diff_desired deep_equal ss desired).1)))

  desired_of_kept : Kept → In t desired
  desired_of_kept (i, kept, same) =
      let wanted : In t.name (spec_names desired) =
        In_of_not_not t.name (spec_names desired)
          (λ n. kept ((In-remove ss (spec_names desired) t.name).1 (In-spec_names t ss i, n))) in
      let (d, j, e) = spec_named t.name desired wanted in
      elim (Bool-cases (deep_equal t d)) [
        | inl b ↦ subst (λ x. In x desired) (sym ((equal t d).0 b)) j
        | inr b ↦ absurd (
            same (
              subst (λ n. In n (spec_names (diff_desired deep_equal ss desired).1)) e
                (In-spec_names d (diff_desired deep_equal ss desired).1 (
                  (In-replace deep_equal ss desired d).1
                    (j, (t, ap (λ n. find_spec n ss) e ∙ find_spec_of_In t ss distinct i, b))))))
      ]

  kept_of_desired :
      In t desired
      → Kept
        ⊎ (In t (diff_desired deep_equal ss desired).1
            ⊎ In t (diff_desired deep_equal ss desired).0)
  kept_of_desired j = elim (Option-cases (find_spec t.name ss)) [
    | inl e ↦ inr (inr ((In-add deep_equal ss desired t).1 (j, (find_spec-none t.name ss).0 e)))
    | inr (was, e) ↦ elim (Bool-cases (deep_equal was t)) [
      | inr b ↦ inr (inl ((In-replace deep_equal ss desired t).1 (j, (was, e, b))))
      | inl b ↦
          let same : was ≡ t = (equal was t).0 b in
          inl (
            subst (λ x. In x ss) same (find_spec-some t.name ss was e).0,
            λ i. ((In-remove ss (spec_names desired) t.name).0 i).1 (In-spec_names t desired j),
            λ i. not_replaced was e b i,
          )
    ]
  ]
    where
      not_replaced :
          (was : Spec)
          → find_spec t.name ss ≡ some was
          → deep_equal was t ≡ true
          → ¬ (In t.name (spec_names (diff_desired deep_equal ss desired).1))
      not_replaced was e b i =
          let (d, k, n) = spec_named t.name (diff_desired deep_equal ss desired).1 i in
          let (k1, changed) = (In-replace deep_equal ss desired d).0 k in
          let (was', f, c) = changed in
          let one : d ≡ t = same_spec desired d t distinct' k1 j n in
          let two : was' ≡ was = same_of_some was' was (sym f ∙ (ap (λ m. find_spec m ss) n ∙ e)) in
          cc (b, subst (λ x. deep_equal was' x ≡ false) one c, two)

-- With a reconciler that keeps to its laws, and no name twice in the running or in the desired set:
-- a pass whose steps all succeeded leaves running exactly the desired specs.
pub apply_converges :
    (w : World) (desired : List Spec) (l : Loop w)
    → IsLawful w
    → Distinct (spec_names (specs (w.views l.world)))
    → Distinct (spec_names desired)
    → (apply w desired l).0 ≡ []
    → (t : Spec) → In t (specs (w.views (apply w desired l).1.world)) ↔ In t desired
unfolding apply diff
apply_converges w desired l lawful d d' h t =
    let ss = specs (w.views l.world) in
    let add = (diff_desired w.deep_equal ss desired).0 in
    let replace = (diff_desired w.deep_equal ss desired).1 in
    let remove = diff_running ss (spec_names desired) in
    let p1 = apply_removals w remove [] l in
    let p2 = apply_replacements w replace p1.0 p1.1 in
    let (n3, e3) = additions_lem w lawful add p2.0 p2.1 t h in
    let (n2, e2) =
      replacements_lem w lawful replace p1.0 p1.1 t (replace-Distinct w.deep_equal ss desired d')
        n3 in
    let (n1, e1) = removals_lem w lawful remove [] l t n2 in
    (
      λ i. elim (e3.0 i) [
        | inr a ↦ ((In-add w.deep_equal ss desired t).0 a).0
        | inl i2 ↦ elim (e2.0 i2) [
          | inr r ↦ ((In-replace w.deep_equal ss desired t).0 r).0
          | inl (i1, n) ↦
              desired_of_kept w.deep_equal lawful.equal ss desired d d' t
                ((e1.0 i1).0, (e1.0 i1).1, n)
        ]
      ],
      λ j. elim (kept_of_desired w.deep_equal lawful.equal ss desired d d' t j) [
        | inl (i, k, s) ↦ e3.1 (inl (e2.1 (inl (e1.1 (i, k), s))))
        | inr (inl r) ↦ e3.1 (inl (e2.1 (inr r)))
        | inr (inr a) ↦ e3.1 (inr a)
      ],
    )
