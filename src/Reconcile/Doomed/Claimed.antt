-- ===== src/Reconcile/Doomed/Claimed.antt =====
-- What `claimed` of reconcile/reconcile.go proves to be an application's own.
use swarmcli_cd.Base.{
  ◌≡◌, ◌↔◌, ◌⊎◌, inl, inr, refl, subst, Bool, true, false, Option, none, some, List, [], ◌∷◌, arith,
  Str, seq_iff, In, In-append, elem, elem_iff, Outcome, ok, err, Bool-cases,
}
use swarmcli_cd.Prune.Rule.{OwnerRef, owner, claim}
use swarmcli_cd.Prune.Claims.{claim_splits, In-sort_names}
use swarmcli_cd.Backend.{Stack}
use swarmcli_cd.Reconcile.Doomed.{
  ResourceNames, no_names, is_no_names, declared_names, Revision, Progress, claim_names,
  sort_resources, newest_first, is_of_app, claim_revision, claim_all, claimed,
}

pub data Kind : Type 0 where
  service network config secret : Kind

abbrev pub of_kind : Kind → ResourceNames → List Str
of_kind service n = n.services
of_kind network n = n.networks
of_kind config n = n.configs
of_kind secret n = n.secrets

-- One round, kind by kind.
claim_names-splits :
    (k : Kind) (declared : ResourceNames) (p : Progress) (a : Str)
    → (In a (of_kind k (claim_names declared p).claimed)
        ↔ (In a (of_kind k p.claimed) ⊎ (In a (of_kind k p.rest) × In a (of_kind k declared))))
      × (In a (of_kind k (claim_names declared p).rest)
          ↔ (In a (of_kind k p.rest) × (¬ (In a (of_kind k declared)))))
unfolding claim_names
claim_names-splits service d p a = ground (
  arith,
  claim_splits p.rest.services d.services a,
  In-append a p.claimed.services (claim p.rest.services d.services).0,
)
claim_names-splits network d p a = ground (
  arith,
  claim_splits p.rest.networks d.networks a,
  In-append a p.claimed.networks (claim p.rest.networks d.networks).0,
)
claim_names-splits config d p a = ground (
  arith,
  claim_splits p.rest.configs d.configs a,
  In-append a p.claimed.configs (claim p.rest.configs d.configs).0,
)
claim_names-splits secret d p a = ground (
  arith,
  claim_splits p.rest.secrets d.secrets a,
  In-append a p.claimed.secrets (claim p.rest.secrets d.secrets).0,
)

none_left : (k : Kind) (n : ResourceNames) (a : Str) → is_no_names n ≡ true → ¬ (In a (of_kind k n))
unfolding is_no_names
none_left service n a h = ground arith
none_left network n a h = ground arith
none_left config n a h = ground arith
none_left secret n a h = ground arith

In-or-not : (a : Str) (xs : List Str) → In a xs ⊎ (¬ (In a xs))
In-or-not a xs = elim (Bool-cases (elem a xs)) [
  | inl e ↦ inl ((elem_iff a xs).0 e)
  | inr e ↦ inr (λ i. absurd (ground (arith, elem_iff a xs)))
]

In-newest_first : (rev : Revision) (revs : List Revision) → In rev (newest_first revs) ↔ In rev revs
unfolding newest_first
In-newest_first rev [] = ground arith
In-newest_first rev (x ∷ revs) =
    ground (arith, In-append rev (newest_first revs) (x ∷ []), In-newest_first rev revs)

In-sort_resources :
    (k : Kind) (a : Str) (n : ResourceNames)
    → In a (of_kind k (sort_resources n)) ↔ In a (of_kind k n)
unfolding sort_resources
In-sort_resources service a n = In-sort_names a n.services
In-sort_resources network a n = In-sort_names a n.networks
In-sort_resources config a n = In-sort_names a n.configs
In-sort_resources secret a n = In-sort_names a n.secrets

pub nothing_claimed : (k : Kind) (a : Str) → ¬ (In a (of_kind k no_names))
nothing_claimed service a h = h
nothing_claimed network a h = h
nothing_claimed config a h = h
nothing_claimed secret a h = h

in_order : {s c n r q q' : Type 0} → s ↔ c → c ↔ (n ⊎ (r × q)) → (¬ n) → q ↔ q' → s ↔ (r × q')
in_order h i j k = ground arith

module _ (parse_owner : Str → Option OwnerRef) (kind_release controller app : Str)
    (read_declared : Revision → Outcome Str Stack) where
  -- A revision stamped by this controller for this application, which declared the name.
  abbrev pub Proves : Kind → Str → Revision → Type 0
  Proves k a rev =
      (owner parse_owner kind_release rev.release controller ≡ some app)
      × ((stack : Stack) × (read_declared rev ≡ ok stack) × In a (of_kind k (declared_names stack)))

  abbrev pub Proved : Kind → Str → List Revision → Type 0
  Proved k a revs = (rev : Revision) × In rev revs × Proves k a rev

  -- One round over a revision proves what it declares, if it is the application's and converts.
  abbrev Round : Kind → Str → Revision → Progress → Progress → Type 0
  Round k a rev p p' =
      (In a (of_kind k p'.claimed)
        ↔ (In a (of_kind k p.claimed) ⊎ (In a (of_kind k p.rest) × Proves k a rev)))
      × (In a (of_kind k p'.rest) ↔ (In a (of_kind k p.rest) × (¬ (Proves k a rev))))
      × (Proves k a rev ⊎ (¬ (Proves k a rev)))

  is_of_app_iff :
      (o : Option Str)
      → (is_of_app parse_owner kind_release controller app read_declared o ≡ true) ↔ (o ≡ some app)
  is_of_app_iff none = ground arith
  is_of_app_iff (some b) = ground (arith, seq_iff b app)

  Round-unproved :
      (k : Kind) (a : Str) (rev : Revision) (p : Progress)
      → (¬ (Proves k a rev))
      → Round k a rev p p
  Round-unproved k a rev p n = (
    (λ i. inl i, λ h. elim h [ inl i ↦ i | inr (r, q) ↦ absurd (n q) ]),
    (λ i. (i, n), λ h. h.0),
    inr n,
  )

  Round-declared :
      {c c' r r' d q : Type 0}
      → (c' ↔ (c ⊎ (r × d))) × (r' ↔ (r × (¬ d)))
      → (q ↔ d)
      → (d ⊎ (¬ d))
      → (c' ↔ (c ⊎ (r × q))) × (r' ↔ (r × (¬ q))) × (q ⊎ (¬ q))
  Round-declared h i j = ground arith

  claim_revision-Round :
      (k : Kind) (a : Str) (rev : Revision) (p : Progress) (b : Bool) (o : Outcome Str Stack)
      → (b ≡ true) ↔ (owner parse_owner kind_release rev.release controller ≡ some app)
      → read_declared rev ≡ o
      → Round k a rev p
          (claim_revision parse_owner kind_release controller app read_declared rev b o p)
  claim_revision-Round k a rev p false o e q =
      Round-unproved k a rev p λ (own, _). absurd (ground arith)
  claim_revision-Round k a rev p true (err x) e q =
      Round-unproved k a rev p λ (own, (stack, r, i)). cc
  claim_revision-Round k a rev p true (ok stack) e q =
      Round-declared (claim_names-splits k (declared_names stack) p a)
        (
          λ (own, (s, r, i)). subst (λ y. In a (of_kind k (declared_names y))) (ground arith) i,
          λ i. (e.0 refl, (stack, q, i)),
        )
        (In-or-not a (of_kind k (declared_names stack)))

  Proved-cons :
      (k : Kind) (a : Str) (rev : Revision) (revs : List Revision)
      → Proved k a (rev ∷ revs) ↔ (Proves k a rev ⊎ Proved k a revs)
  Proved-cons k a rev revs = (there, back)
    where
      there : Proved k a (rev ∷ revs) → Proves k a rev ⊎ Proved k a revs
      there (x, (inl e), h) = inl (subst (Proves k a) e h)
      there (x, (inr i), h) = inr (x, i, h)

      back : Proves k a rev ⊎ Proved k a revs → Proved k a (rev ∷ revs)
      back (inl h) = (rev, inl refl, h)
      back (inr (x, i, h)) = (x, inr i, h)

  further :
      {c c' c2 r r' q qs all : Type 0}
      → (c' ↔ (c ⊎ (r × q))) × (r' ↔ (r × (¬ q))) × (q ⊎ (¬ q))
      → c2 ↔ (c' ⊎ (r' × qs))
      → all ↔ (q ⊎ qs)
      → c2 ↔ (c ⊎ (r × all))
  further h i j = ground arith

  claim_all-proves :
      (k : Kind) (a : Str) (revs : List Revision) (p : Progress)
      → In a (
          of_kind k
            (claim_all parse_owner kind_release controller app read_declared revs p).claimed)
        ↔ (In a (of_kind k p.claimed) ⊎ (In a (of_kind k p.rest) × Proved k a revs))
  unfolding claim_all
  claim_all-proves k a [] p =
      (λ i. inl i, λ h. elim h [ inl i ↦ i | inr (r, (x, i, q)) ↦ absurd i ])
  claim_all-proves k a (rev ∷ revs) p = elim (Bool-cases (is_no_names p.rest)) [
    | inl e ↦
        rw (e, claim_all)
          (λ i. inl i, λ h. elim h [ inl i ↦ i | inr (r, _) ↦ absurd (none_left k p.rest a e r) ])
    | inr e ↦
        rw (e, claim_all)
          (further
            (claim_revision-Round k a rev p _ _
              (is_of_app_iff (owner parse_owner kind_release rev.release controller)) refl)
            (claim_all-proves k a revs _) (Proved-cons k a rev revs))
  ]

  -- Where the history is read, a candidate is claimed exactly if some revision in it is stamped by
  -- this controller for this application and declared the name as its kind.
  pub claimed_exact :
      (k : Kind) (a : Str) (revisions : List Revision) (candidates : ResourceNames)
      → In a (
          of_kind k (
            claimed parse_owner kind_release controller app read_declared
              (ok revisions)
              candidates))
        ↔ (In a (of_kind k candidates) × Proved k a revisions)
  unfolding claimed
  claimed_exact k a revisions candidates =
      in_order (In-sort_resources k a _)
        (claim_all-proves k a (newest_first revisions)
          (record { claimed = no_names; rest = candidates }))
        (nothing_claimed k a)
        (
          λ (rev, i, h). (rev, (In-newest_first rev revisions).0 i, h),
          λ (rev, i, h). (rev, (In-newest_first rev revisions).1 i, h),
        )
