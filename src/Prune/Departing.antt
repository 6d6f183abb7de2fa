-- ===== src/Prune/Departing.antt =====
-- What the sweep deletes: exactly the releases that this controller stamped for an application that
-- has left, less those that somebody still declares. prune/prune.go, departed.
use swarmcli_cd.Base.{
  ◌≡◌, ◌↔◌, ◌⊎◌, inl, inr, refl, subst, Option, none, some, List, [], ◌∷◌, ◌++◌, arith, Str,
  seq_iff, elem_iff, In, Distinct, Option-cases,
}
use swarmcli_cd.Prune.Rule.{
  Release, OwnerRef, DepartedApp, add_release, owner, departed_step, departed_from, departed,
}

-- Release `rel` stands in the group of application `app`.
abbrev pub Holds : Str → Str → List DepartedApp → Type 0
Holds app rel [] = ⊥
Holds app rel (g ∷ gs) = ((g.name ≡ app) × In rel g.releases) ⊎ Holds app rel gs

abbrev pub group_names : List DepartedApp → List Str
group_names [] = []
group_names (g ∷ gs) = g.name ∷ group_names gs

In-snoc : (r x : Str) (xs : List Str) → In r (xs ++ (x ∷ [])) ↔ (In r xs ⊎ (r ≡ x))
In-snoc r x [] = ground arith
In-snoc r x (y ∷ ys) = ground (arith, In-snoc r x ys)

Holds-add_release :
    (a r app rel : Str) (gs : List DepartedApp)
    → Holds a r (add_release app rel gs) ↔ (Holds a r gs ⊎ ((a ≡ app) × (r ≡ rel)))
unfolding add_release
Holds-add_release a r app rel [] = ground arith
Holds-add_release a r app rel (g ∷ gs) =
    ground (arith, seq_iff g.name app, In-snoc r rel g.releases, Holds-add_release a r app rel gs)

In-add_release :
    (a app rel : Str) (gs : List DepartedApp)
    → In a (group_names (add_release app rel gs)) ↔ (In a (group_names gs) ⊎ (a ≡ app))
unfolding add_release
In-add_release a app rel [] = ground arith
In-add_release a app rel (g ∷ gs) = ground (arith, seq_iff g.name app, In-add_release a app rel gs)

Distinct-add_release :
    (app rel : Str) (gs : List DepartedApp)
    → Distinct (group_names gs)
    → Distinct (group_names (add_release app rel gs))
unfolding add_release
Distinct-add_release app rel [] h = ground arith
Distinct-add_release app rel (g ∷ gs) h =
    ground
      (arith, seq_iff g.name app, Distinct-add_release app rel gs, In-add_release g.name app rel gs)

module _ (parse_owner : Str → Option OwnerRef) (kind_release : Str) (desired declared : List Str)
    (controller : Str) where
  -- A release of this controller whose application has left, and that nobody declares.
  abbrev pub Obsolete : Str → Release → Type 0
  Obsolete app rel =
      (owner parse_owner kind_release rel controller ≡ some app)
      × (¬ (In app desired))
      × (¬ (In rel.name declared))

  abbrev pub Listed : Str → Str → List Release → Type 0
  Listed app r [] = ⊥
  Listed app r (rel ∷ rels) = ((rel.name ≡ r) × Obsolete app rel) ⊎ Listed app r rels

  step_lem :
      (a r : Str) (rel : Release) (out : List DepartedApp)
      → Holds a r (
          departed_step parse_owner kind_release desired declared controller out rel.name
            (owner parse_owner kind_release rel controller))
        ↔ (Holds a r out ⊎ ((rel.name ≡ r) × Obsolete a rel))
  step_lem a r rel out = elim (Option-cases (owner parse_owner kind_release rel controller)) [
    | inl e ↦ ground arith
    | inr (app, e) ↦ ground (
      arith,
      elem_iff app desired,
      elem_iff rel.name declared,
      Holds-add_release a r app rel.name out,
    )
  ]

  departed_from_lem :
      (a r : Str) (rels : List Release) (out : List DepartedApp)
      → Holds a r (departed_from parse_owner kind_release desired declared controller out rels)
        ↔ (Holds a r out ⊎ Listed a r rels)
  unfolding departed_from
  departed_from_lem a r [] out = ground arith
  departed_from_lem a r (rel ∷ rels) out =
      let next =
        departed_step parse_owner kind_release desired declared controller out rel.name
          (owner parse_owner kind_release rel controller) in
      ground (arith, step_lem a r rel out, departed_from_lem a r rels next)

  Listed-iff :
      (a r : Str) (rels : List Release)
      → Listed a r rels ↔ ((rel : Release) × In rel rels × (rel.name ≡ r) × Obsolete a rel)
  Listed-iff a r rels = (to rels, from rels)
    where
      to :
          (rs : List Release)
          → Listed a r rs
          → (rel : Release) × In rel rs × (rel.name ≡ r) × Obsolete a rel
      to [] h = absurd h
      to (x ∷ rs) (inl (e, o)) = (x, inl refl, e, o)
      to (x ∷ rs) (inr h) = let (rel, i, e, o) = to rs h in (rel, inr i, e, o)

      from :
          (rs : List Release)
          → ((rel : Release) × In rel rs × (rel.name ≡ r) × Obsolete a rel)
          → Listed a r rs
      from [] (rel, i, e, o) = absurd i
      from (x ∷ rs) (rel, inl i, e, o) = inl (subst (λ y. (y.name ≡ r) × Obsolete a y) i (e, o))
      from (x ∷ rs) (rel, inr i, e, o) = inr (from rs (rel, i, e, o))

  -- A release stands in an application's group exactly when the list has it and it is obsolete:
  -- its stamp names that application of this controller, the application is not desired, and no
  -- application that stays declares the release.
  pub departed_iff :
      (a r : Str) (rels : List Release)
      → Holds a r (departed parse_owner kind_release desired declared controller rels)
        ↔ ((rel : Release) × In rel rels × (rel.name ≡ r) × Obsolete a rel)
  unfolding departed
  departed_iff a r rels = (
    λ h. (Listed-iff a r rels).0 (ground (arith, departed_from_lem a r rels [])),
    λ h. (departed_from_lem a r rels []).1 (inr ((Listed-iff a r rels).1 h)),
  )

  departed_from-Distinct :
      (rels : List Release) (out : List DepartedApp)
      → Distinct (group_names out)
      → Distinct (
          group_names (departed_from parse_owner kind_release desired declared controller out rels))
  unfolding departed_from
  departed_from-Distinct [] out h = h
  departed_from-Distinct (rel ∷ rels) out h =
      departed_from-Distinct rels
        (departed_step parse_owner kind_release desired declared controller out rel.name
          (owner parse_owner kind_release rel controller))
        (step (owner parse_owner kind_release rel controller))
    where
      step :
          (o : Option Str)
          → Distinct (
              group_names
                (departed_step parse_owner kind_release desired declared controller out rel.name o))
      step none = h
      step (some app) = ground (arith, Distinct-add_release app rel.name out h)

  -- No application has two groups.
  pub departed-Distinct :
      (rels : List Release)
      → Distinct (group_names (departed parse_owner kind_release desired declared controller rels))
  unfolding departed
  departed-Distinct rels = departed_from-Distinct rels [] tt
