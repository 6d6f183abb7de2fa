-- ===== src/Reconcile/Pruned/Allowed.antt =====
-- What pruneServices and pruneResources of reconcile/reconcile.go delete.
use swarmcli_cd.Base.{
  ◌≡◌, ◌⊎◌, inl, inr, refl, Bool, true, false, Option, none, some, List, [], ◌∷◌, arith, Str, seq,
  seq_iff, In, elem, elem_iff, All, Bool-cases, not, ◌||◌, is_empty, if◌then◌else◌,
}
use swarmcli_cd.Prune.Rule.{sort_names}
use swarmcli_cd.Reconcile.Doomed.Departed.{
  DepartedService, DepartedResource, DoomedSet, Counts, keys,
}
use swarmcli_cd.Reconcile.Pruned.{
  Member, declared_elsewhere, Removal, remove_service, remove_resource, Removals, Pass, set_of,
  services_of, resources_of, remove_services, remove_resources, prune_service_sets,
  prune_resource_sets, begun, prune_services, prune_resources,
}

module _ (app : Str) (members : List Member) (doomed : List (Str × DoomedSet)) where
  -- The sets of the releases that no other application declares.
  abbrev pub Doomed : Str → DoomedSet → Type 0
  Doomed release set = In (release, set) doomed × (¬ (In release (declared_elsewhere app members)))

  -- The event removes what one of those sets holds.
  abbrev pub May : Removal → Type 0
  May (remove_service id) =
      (release : Str) × (set : DoomedSet) × Doomed release set
      × ((s : DepartedService) × In s set.services × (s.id ≡ id))
  May (remove_resource kind id) =
      (release : Str) × (set : DoomedSet) × Doomed release set
      × ((x : DepartedResource) × In x set.resources × (x.kind ≡ kind) × (x.id ≡ id))

  pub In-set_of :
      (release : Str) (set : DoomedSet) (ds : List (Str × DoomedSet))
      → set_of release ds ≡ some set
      → In (release, set) ds
  unfolding set_of
  In-set_of release set [] h = cc
  In-set_of release set (kv ∷ ds) h = elim (Bool-cases (seq kv.0 release)) [
    | inl e ↦ inl (ground (arith, seq_iff kv.0 release))
    | inr e ↦ inr (In-set_of release set ds (ground arith))
  ]

  module _ (fails : Removals → Bool) where
    remove_services-May :
        (ss : List DepartedService) (p : Pass) (tr : Removals)
        → ((s : DepartedService) → In s ss → May (remove_service s.id))
        → All May tr
        → All May (remove_services fails ss p tr).1
    unfolding remove_services
    remove_services-May [] p tr m h = h
    remove_services-May (s ∷ ss) p tr m h =
        remove_services-May ss _ (remove_service s.id ∷ tr) (λ x i. m x (inr i)) (m s (inl refl), h)

    remove_resources-May :
        (release : Str) (xs : List DepartedResource) (p : Pass) (tr : Removals)
        → ((x : DepartedResource) → In x xs → May (remove_resource x.kind x.id))
        → All May tr
        → All May (remove_resources fails release xs p tr).1
    unfolding remove_resources
    remove_resources-May release [] p tr m h = h
    remove_resources-May release (x ∷ xs) p tr m h =
        remove_resources-May release xs _ (remove_resource x.kind x.id ∷ tr) (λ y i. m y (inr i))
          (m x (inl refl), h)

    either-May :
        (c : Bool) (x y : Pass × Removals)
        → All May x.1
        → (c ≡ false → All May y.1)
        → All May (if c then x else y).1
    either-May true x y f g = f
    either-May false x y f g = g refl

    services_of-May :
        (release : Str) (o : Option DoomedSet)
        → set_of release doomed ≡ o
        → (¬ (In release (declared_elsewhere app members)))
        → (s : DepartedService) → In s (services_of o)
        → May (remove_service s.id)
    services_of-May release none e n s i = absurd i
    services_of-May release (some set) e n s i =
        (release, set, (In-set_of release set doomed e, n), (s, i, refl))

    resources_of-May :
        (release : Str) (o : Option DoomedSet)
        → set_of release doomed ≡ o
        → (¬ (In release (declared_elsewhere app members)))
        → (x : DepartedResource) → In x (resources_of o)
        → May (remove_resource x.kind x.id)
    resources_of-May release none e n x i = absurd i
    resources_of-May release (some set) e n x i =
        (release, set, (In-set_of release set doomed e, n), (x, i, refl, refl))

    apart :
        (release : Str)
        → elem release (declared_elsewhere app members) ≡ false
        → ¬ (In release (declared_elsewhere app members))
    apart release e i = absurd (ground (arith, elem_iff release (declared_elsewhere app members)))

    prune_service_sets-May :
        (releases : List Str) (st : Pass × Removals)
        → All May st.1
        → All May (prune_service_sets fails (declared_elsewhere app members) doomed releases st).1
    unfolding prune_service_sets
    prune_service_sets-May [] st h = h
    prune_service_sets-May (release ∷ rest) (p, tr) h = prune_service_sets-May rest _ (
        either-May (elem release (declared_elsewhere app members)) _ _ h λ e.
          remove_services-May (services_of (set_of release doomed)) p tr
            (services_of-May release (set_of release doomed) refl (apart release e)) h)

    prune_resource_sets-May :
        (releases : List Str) (st : Pass × Removals)
        → All May st.1
        → All May (prune_resource_sets fails (declared_elsewhere app members) doomed releases st).1
    unfolding prune_resource_sets
    prune_resource_sets-May [] st h = h
    prune_resource_sets-May (release ∷ rest) (p, tr) h = prune_resource_sets-May rest _ (
        either-May (elem release (declared_elsewhere app members)) _ _ h λ e.
          remove_resources-May release (resources_of (set_of release doomed)) p tr
            (resources_of-May release (set_of release doomed) refl (apart release e)) h)

    prune_services-May :
        (policy can_remove : Bool)
        → All May (prune_services fails policy can_remove app members doomed []).1
    unfolding prune_services
    prune_services-May policy can_remove =
        either-May (not policy || (is_empty doomed || not can_remove)) _ _ tt
          (λ _. prune_service_sets-May (sort_names (keys doomed)) (begun fails [], []) tt)

    pub later-May :
        (policy can_remove : Bool) (counts : Counts) (tr : Removals)
        → All May tr
        → All May (prune_resources fails policy can_remove app members counts doomed tr).1
    unfolding prune_resources
    later-May policy can_remove counts tr h =
        either-May (not policy || (is_empty doomed || not can_remove)) _ _ h
          (λ _. prune_resource_sets-May (sort_names (keys doomed)) (begun fails counts, tr) h)

    -- The removals of a pass: the services, and the resources after the apply.
    abbrev pub pass_removals : Bool → Bool → Counts → Removals
    pass_removals policy can_remove counts =
        (prune_resources fails policy can_remove app members counts doomed
          (prune_services fails policy can_remove app members doomed []).1).1

    idle : (can_remove : Bool) (counts : Counts) → pass_removals false can_remove counts ≡ []
    unfolding prune_services prune_resources
    idle can_remove counts = refl

    -- A pass over the services and, after the apply, over the resources removes only what the sets
    -- hold, by the ids in them, and nothing of a release that another application declares; and
    -- unless the policy prunes resources it removes nothing.
    pub pass_removals-May :
        (policy can_remove : Bool) (counts : Counts)
        → All May (pass_removals policy can_remove counts)
          × ((policy ≡ true) ⊎ (pass_removals policy can_remove counts ≡ []))
    pass_removals-May true can_remove counts =
        (later-May true can_remove counts _ (prune_services-May true can_remove), inl refl)
    pass_removals-May false can_remove counts = (
      later-May false can_remove counts _ (prune_services-May false can_remove),
      inr (idle can_remove counts),
    )
