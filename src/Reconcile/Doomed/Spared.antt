-- ===== src/Reconcile/Doomed/Spared.antt =====
-- What `departed` of reconcile/reconcile.go leaves alone.
use swarmcli_cd.Base.{
  ◌<◌, ◌≤◌, ◌≡◌, inl, inr, refl, sym, subst, Bool, true, false, Option, none, some, List, [], ◌∷◌,
  ◌++◌, Str, In, In-append, of_In-map, Outcome, Outcome-cases, ok, err, if◌then◌else◌,
}
use swarmcli_cd.Prune.Rule.{OwnerRef}
use swarmcli_cd.Backend.{Stack}
use swarmcli_cd.Reconcile.Doomed.{ResourceNames, Revision, claimed, is_no_names, no_names}
use swarmcli_cd.Reconcile.Doomed.Claimed.{
  Kind, service, network, config, secret, of_kind, Proved, claimed_exact, nothing_claimed,
}
use swarmcli_cd.Reconcile.Doomed.Departed.{
  ReleaseView, DepartedService, DepartedResource, DoomedSet, Counts, count_of, prune_key,
  max_prune_attempts, id_of, candidates, departed_service, resources_of, all_resources,
  no_resources, doomed_set, proved_of, departed_release, departed_loop, departed,
}
use swarmcli_cd.Reconcile.Doomed.Unwanted.{
  Unwanted, candidates-Unwanted, ids_of, In-resources_of, add_all_doomed-Extended,
}

module _ (parse_owner : Str → Option OwnerRef) (kind_release controller app : Str)
    (read_declared : Revision → Outcome Str Stack) (history : Str → Outcome Str (List Revision))
    (was : Counts) (views : Str → Option ReleaseView) where
  -- Unwanted, and declared by a stored revision that this controller stamped for the application.
  abbrev pub MayGo : Str → ReleaseView → Kind → Str → Type 0
  MayGo release v k a =
      Unwanted k v a
      × ((revisions : List Revision) × (history release ≡ ok revisions)
          × Proved parse_owner kind_release controller app read_declared k a revisions)

  abbrev Mine : Str → ReleaseView → ResourceNames
  Mine release v = proved_of parse_owner kind_release controller app read_declared history release v

  proved-MayGo :
      (release : Str) (v : ReleaseView) (k : Kind) (a : Str)
      → In a (of_kind k (Mine release v))
      → MayGo release v k a
  unfolding claimed
  proved-MayGo release v k a i = elim (Outcome-cases (history release)) [
    | inr (e, q) ↦
        absurd (nothing_claimed k a (unread e (subst (λ h. In a (of_kind k (of_history h))) q i)))
    | inl (revs, q) ↦
        let (c, p) =
          (claimed_exact parse_owner kind_release controller app read_declared k a revs
              (candidates v)).0
            (subst (λ h. In a (of_kind k (of_history h))) q i) in
        (candidates-Unwanted k v a c, (revs, q, p))
  ]
    where
      of_history : Outcome Str (List Revision) → ResourceNames
      of_history h = claimed parse_owner kind_release controller app read_declared h (candidates v)

      unread : (e : Str) → In a (of_kind k (of_history (err e))) → In a (of_kind k no_names)
      unread e j = j

  -- What stands in a release's set.
  abbrev pub SetSpares : Str → ReleaseView → DoomedSet → Type 0
  SetSpares release v set =
      ((s : DepartedService)
        → In s set.services
        → (a : Str) × MayGo release v service a × (s ≡ departed_service v a))
      × ((x : DepartedResource)
          → In x set.resources
          → MayGo release v x.kind x.name
            × (x.id ≡ id_of x.name (ids_of x.kind v))
            × (count_of (prune_key release x) was < max_prune_attempts))
      × ((x : DepartedResource)
          → In x set.retained
          → MayGo release v x.kind x.name
            × (max_prune_attempts ≤ count_of (prune_key release x) was))

  of_proved :
      (v : ReleaseView) (p : ResourceNames) (x : DepartedResource)
      → In x (all_resources v p)
      → In x.name (of_kind x.kind p) × (x.id ≡ id_of x.name (ids_of x.kind v))
  of_proved v p x i = elim ((In-append x (resources_of config v.configs p.configs) _).0 i) [
    | inl c ↦ named config (In-resources_of x config v.configs p.configs c)
    | inr j ↦ elim ((In-append x (resources_of secret v.secrets p.secrets) _).0 j) [
      | inl c ↦ named secret (In-resources_of x secret v.secrets p.secrets c)
      | inr c ↦ named network (In-resources_of x network v.networks p.networks c)
    ]
  ]
    where
      named :
          (k : Kind)
          → (x.kind ≡ k) × In x.name (of_kind k p) × (x.id ≡ id_of x.name (ids_of k v))
          → In x.name (of_kind x.kind p) × (x.id ≡ id_of x.name (ids_of x.kind v))
      named k (e, m, q) =
          subst (λ y. In x.name (of_kind y p) × (x.id ≡ id_of x.name (ids_of y v))) (sym e) (m, q)

  doomed_set-SetSpares :
      (release : Str) (v : ReleaseView) (still : Counts)
      → SetSpares release v (doomed_set was release v (Mine release v) still).0
  unfolding doomed_set
  doomed_set-SetSpares release v still =
      let proved = Mine release v in
      let start = no_resources v proved in
      let (tried, given, same) =
        add_all_doomed-Extended was release (all_resources v proved) start still in
      (
        λ s i.
            let (a, m, e) =
              of_In-map (departed_service v) s proved.services (subst (λ l. In s l) same i) in
            (a, proved-MayGo release v service a m, e),
        λ x i. elim (tried x i) [
          | inl b ↦ absurd b
          | inr (m, t) ↦
              let (n, q) = of_proved v proved x m in (proved-MayGo release v x.kind x.name n, q, t)
        ],
        λ x i. elim (given x i) [
          | inl b ↦ absurd b
          | inr (m, t) ↦
              let (n, q) = of_proved v proved x m in (proved-MayGo release v x.kind x.name n, t)
        ],
      )

  -- Each set belongs to a release whose view was read.
  abbrev pub OfView : Str → DoomedSet → Type 0
  OfView release set =
      (v : ReleaseView) × (views release ≡ some v) × (v.failed ≡ false) × SetSpares release v set

  abbrev pub Spares : List (Str × DoomedSet) → Type 0
  Spares sets = (release : Str) (set : DoomedSet) → In (release, set) sets → OfView release set

  departed_release-Spares :
      (release : Str) (o : Option ReleaseView) (out : List (Str × DoomedSet)) (still : Counts)
      → views release ≡ o
      → Spares out
      → Spares
          (departed_release parse_owner kind_release controller app read_declared history was
            release o
            (out, still)).0
  unfolding departed_release
  departed_release-Spares release none out still e h = h
  departed_release-Spares release (some v) out still e h =
      either v.failed _ _ (λ _. h)
        λ read.
          either (is_no_names (candidates v)) _ _ (λ _. h)
            λ _.
              either (is_no_names (Mine release v)) _ _ (λ _. h)
                λ _. added (v, e, read, doomed_set-SetSpares release v still)
    where
      either :
          (c : Bool) (x y : List (Str × DoomedSet) × Counts)
          → (c ≡ true → Spares x.0)
          → (c ≡ false → Spares y.0)
          → Spares (if c then x else y).0
      either true x y f g = f refl
      either false x y f g = g refl

      added :
          (w : ReleaseView) × (views release ≡ some w)
            × (w.failed ≡ false)
            × SetSpares release w (doomed_set was release v (Mine release v) still).0
          → Spares (out ++ ((release, (doomed_set was release v (Mine release v) still).0) ∷ []))
      added new r set i = elim ((In-append (r, set) out _).0 i) [
        | inl j ↦ h r set j
        | inr (inl q) ↦ subst (λ p. OfView p.0 p.1) (sym q) new
        | inr (inr b) ↦ absurd b
      ]

  departed_loop-Spares :
      (releases : List Str) (st : List (Str × DoomedSet) × Counts)
      → Spares st.0
      → Spares
          (departed_loop parse_owner kind_release controller app read_declared history was views
            releases st).0
  unfolding departed_loop
  departed_loop-Spares [] st h = h
  departed_loop-Spares (release ∷ rest) (out, still) h =
      departed_loop-Spares rest _ (departed_release-Spares release (views release) out still refl h)

  -- Whatever is live, declared and stored: what a sweep may delete of a release, service or
  -- resource, is live by its name, is not declared by the manifest that is applied, is mounted by no
  -- service as a config or secret, now or before its last update, and was declared by a stored
  -- revision that this controller stamped for this application; a resource goes by the id listed for
  -- its name and has failed fewer than three times, and one that failed three times is only reported.
  pub departed-Spares :
      (releases : List Str)
      → Spares
          (departed parse_owner kind_release controller app read_declared history was views
            releases).0
  unfolding departed
  departed-Spares releases = departed_loop-Spares releases ([], []) λ release set i. absurd i
