-- ===== src/AppSet/Loop/Converge.antt =====
-- A pass whose steps all succeed leaves exactly the desired set running: appset/loop.go, apply.
use swarmcli_cd.Base.{
  ◌≡◌, ◌≢◌, ◌↔◌, ◌⊎◌, inl, inr, refl, sym, subst, ap, ◌∙◌, true, Option, none, some, List, [], ◌∷◌,
  ◌++◌, arith, Str, Outcome-cases, Option-cases, In, Distinct,
}
use swarmcli_cd.Application.{Spec}
use swarmcli_cd.AppSet.Diff.{spec_names, specs}
use swarmcli_cd.AppSet.Loop.{
  World, Failure, Loop, orphan, adopt, credential, apply_removals, apply_replacement,
  apply_addition, collect, apply_replacements, apply_additions, removing,
}

-- What the loop relies on of a reconciler: a step that returns no error changes the running specs
-- as its name says, handing over a credential changes none, and equality is equality.
pub record IsLawful (w : World) : Type 0 where
  pub removed :
      (n : Str) (s : w.State) (t : Spec)
      → (w.remove n s).0 ≡ none
      → In t (specs (w.views (w.remove n s).1)) ↔ (In t (specs (w.views s)) × (t.name ≢ n))
  pub replaced :
      (x : Spec) (s : w.State) (t : Spec)
      → (w.replace x s).0 ≡ none
      → In t (specs (w.views (w.replace x s).1))
        ↔ ((In t (specs (w.views s)) × (t.name ≢ x.name)) ⊎ (t ≡ x))
  pub added :
      (x : Spec) (s : w.State) (t : Spec)
      → (w.add x s).0 ≡ none
      → In t (specs (w.views (w.add x s).1)) ↔ (In t (specs (w.views s)) ⊎ (t ≡ x))
  pub authorised :
      (n : Str) (r : w.Resolver) (s : w.State) → w.views (w.set_registry_auth n r s) ≡ w.views s
  pub equal : (a b : Spec) → (w.deep_equal a b ≡ true) ↔ (a ≡ b)

append_not_nil : {A : Type 0} (xs : List A) (x : A) → xs ++ (x ∷ []) ≢ []
append_not_nil [] x = λ e. cc
append_not_nil (y ∷ ys) x = λ e. cc

less_and_less : {A B C E F : Type 0} → A ↔ (B × (¬ F)) → B ↔ (C × (¬ E)) → A ↔ (C × (¬ (E ⊎ F)))
less_and_less p q = (
  λ a. let b = (p.0 a).0 in ((q.0 b).0, elim [ inl e ↦ (q.0 b).1 e | inr f ↦ (p.0 a).1 f ]),
  λ c. p.1 (q.1 (c.0, λ e. c.1 (inl e)), λ f. c.1 (inr f)),
)

more_and_more : {A B C E F : Type 0} → A ↔ (B ⊎ F) → B ↔ (C ⊎ E) → A ↔ (C ⊎ (E ⊎ F))
more_and_more {A} {B} {C} {E} {F} p q = (to, from)
  where
    to : A → C ⊎ (E ⊎ F)
    to a = elim (p.0 a) [
      | inr f ↦ inr (inr f)
      | inl b ↦ elim (q.0 b) [ inl c ↦ inl c | inr e ↦ inr (inl e) ]
    ]

    from : C ⊎ (E ⊎ F) → A
    from (inl c) = p.1 (inl (q.1 (inl c)))
    from (inr (inl e)) = p.1 (inl (q.1 (inr e)))
    from (inr (inr f)) = p.1 (inr f)

-- Replacing under one name after another.
replace_step :
    {A B C : Type 0} (x : Spec) (xs : List Spec) (t : Spec)
    → ¬ (In x.name (spec_names xs))
    → A ↔ ((B × (¬ (In t.name (spec_names xs)))) ⊎ In t xs)
    → B ↔ ((C × (t.name ≢ x.name)) ⊎ (t ≡ x))
    → A ↔ ((C × (¬ (In t.name (spec_names (x ∷ xs))))) ⊎ In t (x ∷ xs))
replace_step {A} {B} {C} x xs t fresh p q = (to, from)
  where
    to : A → (C × (¬ (In t.name (spec_names (x ∷ xs))))) ⊎ In t (x ∷ xs)
    to a = elim (p.0 a) [
      | inr i ↦ inr (inr i)
      | inl (b, n) ↦ elim (q.0 b) [
        | inr e ↦ inr (inl e)
        | inl (c, m) ↦ inl (c, elim [ inl e ↦ m e | inr i ↦ n i ])
      ]
    ]

    from : (C × (¬ (In t.name (spec_names (x ∷ xs))))) ⊎ In t (x ∷ xs) → A
    from (inl (c, n)) = p.1 (inl (q.1 (inl (c, λ e. n (inl e))), λ i. n (inr i)))
    from (inr (inl e)) =
        p.1 (inl (q.1 (inr e), λ i. fresh (subst (λ (y : Spec). In y.name (spec_names xs)) e i)))
    from (inr (inr i)) = p.1 (inr i)

module _ (w : World) (lawful : IsLawful w) where
  -- the specs that run in a state of the loop
  abbrev pub running : Loop w → List Spec
  running l = specs (w.views l.world)

  -- Removals.
  module _ (n : Str) (ns : List Str) (errs : List (Failure w)) (l : Loop w) where
    abbrev after_remove : Loop w
    after_remove = record l { world = (w.remove n l.world).1 }

    removal_ok :
        (w.remove n l.world).0 ≡ none
        → apply_removals w (n ∷ ns) errs l ≡ apply_removals w ns errs (orphan w n after_remove)
    unfolding apply_removals
    removal_ok e = rw (e, apply_removals)

    removal_failed :
        (x : w.Error)
        → (w.remove n l.world).0 ≡ some x
        → apply_removals w (n ∷ ns) errs l
          ≡ apply_removals w ns (errs ++ (removing n x ∷ [])) after_remove
    unfolding apply_removals
    removal_failed x e = rw (e, apply_removals)

  pub removals_lem :
      (ns : List Str) (errs : List (Failure w)) (l : Loop w) (t : Spec)
      → (apply_removals w ns errs l).0 ≡ []
      → (errs ≡ [])
        × (In t (running (apply_removals w ns errs l).1) ↔ (In t (running l) × (¬ (In t.name ns))))
  unfolding apply_removals orphan
  removals_lem [] errs l t h = (h, (λ i. (i, λ a. a), λ i. i.0))
  removals_lem (n ∷ ns) errs l t h = elim (Option-cases (w.remove n l.world).0) [
    | inr (x, e) ↦
        let p = removal_failed n ns errs l x e in
        absurd (
          append_not_nil errs (removing n x)
            (removals_lem ns (errs ++ (removing n x ∷ [])) (after_remove n ns errs l) t
              (ap (λ (r : List (Failure w) × Loop w). r.0) (sym p) ∙ h)).0)
    | inl e ↦
        let r = apply_removals w ns errs (orphan w n (after_remove n ns errs l)) in
        let p = removal_ok n ns errs l e in
        let (nil, ih) =
          removals_lem ns errs (orphan w n (after_remove n ns errs l)) t
            (ap (λ (r : List (Failure w) × Loop w). r.0) (sym p) ∙ h) in
        (
          nil,
          subst
              (λ (q : List (Failure w) × Loop w).
                In t (running q.1) ↔ (In t (running l) × (¬ (In t.name (n ∷ ns)))))
              (sym p) (less_and_less ih (lawful.removed n l.world t e)),
        )
  ]

  replacement_lem :
      (x : Spec) (l : Loop w) (t : Spec)
      → (apply_replacement w x l).0 ≡ none
      → In t (running (apply_replacement w x l).1)
        ↔ ((In t (running l) × (t.name ≢ x.name)) ⊎ (t ≡ x))
  unfolding apply_replacement credential
  replacement_lem x l t h = elim (Outcome-cases (w.credentials x)) [
    | inr (y, e) ↦ ground arith
    | inl (r, e) ↦
        let s = w.set_registry_auth x.name r l.world in
        elim (Option-cases (w.replace x s).0) [
          | inr (y, f) ↦ ground arith
          | inl f ↦
              let q : apply_replacement w x l ≡ (none, record l { world = (w.replace x s).1 }) =
                ground arith in
              subst
                (λ (p : Option (Failure w) × Loop w).
                  In t (running p.1) ↔ ((In t (running l) × (t.name ≢ x.name)) ⊎ (t ≡ x)))
                (sym q)
                (subst
                  (λ vs.
                    In t (specs (w.views (w.replace x s).1))
                    ↔ ((In t (specs vs) × (t.name ≢ x.name)) ⊎ (t ≡ x)))
                  (lawful.authorised x.name r l.world) (lawful.replaced x s t f))
        ]
  ]

  addition_lem :
      (x : Spec) (l : Loop w) (t : Spec)
      → (apply_addition w x l).0 ≡ none
      → In t (running (apply_addition w x l).1) ↔ (In t (running l) ⊎ (t ≡ x))
  unfolding apply_addition credential adopt
  addition_lem x l t h = elim (Outcome-cases (w.credentials x)) [
    | inr (y, e) ↦ ground arith
    | inl (r, e) ↦
        let s = w.set_registry_auth x.name r l.world in
        elim (Option-cases (w.add x s).0) [
          | inr (y, f) ↦ ground arith
          | inl f ↦
              let q : apply_addition w x l
                  ≡ (none, adopt w x.name (record l { world = (w.add x s).1 })) =
                ground arith in
              subst
                (λ (p : Option (Failure w) × Loop w).
                  In t (running p.1) ↔ (In t (running l) ⊎ (t ≡ x)))
                (sym q)
                (subst (λ vs. In t (specs (w.views (w.add x s).1)) ↔ (In t (specs vs) ⊎ (t ≡ x)))
                  (lawful.authorised x.name r l.world) (lawful.added x s t f))
        ]
  ]

  collect_nil :
      (errs : List (Failure w)) (o : Option (Failure w))
      → collect w errs o ≡ []
      → (errs ≡ []) × (o ≡ none)
  collect_nil errs none h = (h, refl)
  collect_nil errs (some e) h = absurd (append_not_nil errs e h)

  pub replacements_lem :
      (xs : List Spec) (errs : List (Failure w)) (l : Loop w) (t : Spec)
      → Distinct (spec_names xs)
      → (apply_replacements w xs errs l).0 ≡ []
      → (errs ≡ [])
        × (In t (running (apply_replacements w xs errs l).1)
            ↔ ((In t (running l) × (¬ (In t.name (spec_names xs)))) ⊎ In t xs))
  unfolding apply_replacements
  replacements_lem [] errs l t d h =
      (h, (λ i. inl (i, λ a. a), elim [ inl i ↦ i.0 | inr f ↦ absurd f ]))
  replacements_lem (x ∷ xs) errs l t d h =
      let p = apply_replacement w x l in
      let (nil, ih) = replacements_lem xs (collect w errs p.0) p.1 t d.1 h in
      let (nil', ok') = collect_nil errs p.0 nil in
      (nil', replace_step x xs t d.0 ih (replacement_lem x l t ok'))

  pub additions_lem :
      (xs : List Spec) (errs : List (Failure w)) (l : Loop w) (t : Spec)
      → (apply_additions w xs errs l).0 ≡ []
      → (errs ≡ [])
        × (In t (running (apply_additions w xs errs l).1) ↔ (In t (running l) ⊎ In t xs))
  unfolding apply_additions
  additions_lem [] errs l t h = (h, (λ i. inl i, elim [ inl i ↦ i | inr f ↦ absurd f ]))
  additions_lem (x ∷ xs) errs l t h =
      let p = apply_addition w x l in
      let (nil, ih) = additions_lem xs (collect w errs p.0) p.1 t h in
      let (nil', ok') = collect_nil errs p.0 nil in
      (nil', more_and_more ih (addition_lem x l t ok'))
