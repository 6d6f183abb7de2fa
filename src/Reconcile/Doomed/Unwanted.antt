-- ===== src/Reconcile/Doomed/Unwanted.antt =====
-- What `departed` of reconcile/reconcile.go considers at all, and what `doomedSet.add` makes of it.
use swarmcli_cd.Base.{
  ◌<◌, ◌≤◌, ◌≡◌, ◌↔◌, ◌⊎◌, inl, inr, refl, sym, ap, subst, ◌∙◌, not, List, [], ◌∷◌, ◌++◌, arith,
  Str, In, In-append, In-keep, elem, elem_iff, Bool-cases, leb,
}
use swarmcli_cd.Prune.Rule.{undeclared}
use swarmcli_cd.Prune.Claims.{undeclared_exact}
use swarmcli_cd.Reconcile.Doomed.Claimed.{Kind, service, network, config, secret, of_kind}
use swarmcli_cd.Reconcile.Doomed.Departed.{
  ReleaseView, DepartedResource, DoomedSet, Counts, count_of, prune_key, max_prune_attempts, keys,
  id_of, in_use, unused, names_of_view, candidates, add_doomed, add_all_doomed, resources_of,
}

-- The names of a kind that are live.
abbrev pub live_names : Kind → ReleaseView → List Str
live_names service v = keys v.live
live_names network v = keys v.networks
live_names config v = keys v.configs
live_names secret v = keys v.secrets

-- The names that a service of the release mounts, or mounted before its last update.
abbrev pub used_names : Kind → ReleaseView → List Str
used_names config v = (in_use v.live).0
used_names secret v = (in_use v.live).1
used_names _ v = []

-- Live, not declared by the manifest that is applied, and used by no service.
abbrev pub Unwanted : Kind → ReleaseView → Str → Type 0
Unwanted k v a =
    In a (live_names k v)
    × (¬ (In a (of_kind k (names_of_view v.declared))))
    × (¬ (In a (used_names k v)))

In-unused : (a : Str) (xs used : List Str) → In a (unused xs used) ↔ (In a xs × (¬ (In a used)))
unfolding unused
In-unused a xs used = ground (arith, In-keep (λ n. not (elem n used)) a xs, elem_iff a used)

pub candidates-Unwanted :
    (k : Kind) (v : ReleaseView) (a : Str) → In a (of_kind k (candidates v)) → Unwanted k v a
unfolding candidates
candidates-Unwanted service v a i = elim (Bool-cases v.resources_failed) [
  | inl e ↦ ground (arith, (undeclared_exact (keys v.live) (names_of_view v.declared).services).0 a)
  | inr e ↦ ground (arith, (undeclared_exact (keys v.live) (names_of_view v.declared).services).0 a)
]
candidates-Unwanted network v a i =
    ground (arith, (undeclared_exact (keys v.networks) (names_of_view v.declared).networks).0 a)
candidates-Unwanted config v a i = ground (
  arith,
  (undeclared_exact (keys v.configs) (names_of_view v.declared).configs).0 a,
  In-unused a (undeclared (keys v.configs) (names_of_view v.declared).configs) (in_use v.live).0,
)
candidates-Unwanted secret v a i = ground (
  arith,
  (undeclared_exact (keys v.secrets) (names_of_view v.declared).secrets).0 a,
  In-unused a (undeclared (keys v.secrets) (names_of_view v.declared).secrets) (in_use v.live).1,
)

-- The ids that the daemon listed for a kind.
abbrev pub ids_of : Kind → ReleaseView → List (Str × Str)
ids_of service v = []
ids_of network v = v.networks
ids_of config v = v.configs
ids_of secret v = v.secrets

pub In-resources_of :
    (x : DepartedResource) (k : Kind) (ids : List (Str × Str)) (ns : List Str)
    → In x (resources_of k ids ns)
    → (x.kind ≡ k) × In x.name ns × (x.id ≡ id_of x.name ids)
In-resources_of x k ids [] i = absurd i
In-resources_of x k ids (n ∷ ns) (inl e) = (
  ap (λ r. r.kind) e,
  inl (ap (λ r. r.name) e),
  ap (λ r. r.id) e ∙ ap (λ m. id_of m ids) (sym (ap (λ r. r.name) e)),
)
In-resources_of x k ids (n ∷ ns) (inr i) =
    let (e, m, q) = In-resources_of x k ids ns i in (e, inr m, q)

module _ (was : Counts) (release : Str) where
  abbrev pub Tried : DepartedResource → Type 0
  Tried x = count_of (prune_key release x) was < max_prune_attempts

  abbrev pub GivenUp : DepartedResource → Type 0
  GivenUp x = max_prune_attempts ≤ count_of (prune_key release x) was

  one_more :
      (P : DepartedResource → Type 0) (res x : DepartedResource) (xs : List DepartedResource)
      → P res
      → In x (xs ++ (res ∷ []))
      → In x xs ⊎ ((x ≡ res) × P x)
  one_more P res x xs p i = elim ((In-append x xs (res ∷ [])).0 i) [
    | inl j ↦ inl j
    | inr (inl e) ↦ inr (e, subst P (sym e) p)
    | inr (inr b) ↦ absurd b
  ]

  -- The parts of a set, and what was added to them.
  abbrev pub Extended : DoomedSet → List DepartedResource → DoomedSet → Type 0
  Extended set added set' =
      ((x : DepartedResource) → In x set'.resources → In x set.resources ⊎ (In x added × Tried x))
      × ((x : DepartedResource) → In x set'.retained → In x set.retained ⊎ (In x added × GivenUp x))
      × (set'.services ≡ set.services)

  add_doomed-Extended :
      (res : DepartedResource) (set : DoomedSet) (still : Counts)
      → Extended set (res ∷ []) (add_doomed was release res (set, still)).0
  unfolding add_doomed
  add_doomed-Extended res set still =
      elim (Bool-cases (leb max_prune_attempts (count_of (prune_key release res) was))) [
        | inl e ↦
            rw (e, add_doomed)
              (
                λ x i. inl i,
                λ x i. single (one_more GivenUp res x set.retained (ground arith) i),
                refl,
              )
        | inr e ↦
            rw (e, add_doomed)
              (
                λ x i. single (one_more Tried res x set.resources (ground arith) i),
                λ x i. inl i,
                refl,
              )
      ]
    where
      single :
          {x : DepartedResource} {P Q : Type 0} → P ⊎ ((x ≡ res) × Q) → P ⊎ (In x (res ∷ []) × Q)
      single (inl p) = inl p
      single (inr (e, q)) = inr (inl e, q)

  pub add_all_doomed-Extended :
      (rs : List DepartedResource) (set : DoomedSet) (still : Counts)
      → Extended set rs (add_all_doomed was release rs (set, still)).0
  unfolding add_all_doomed
  add_all_doomed-Extended [] set still = (λ x i. inl i, λ x i. inl i, refl)
  add_all_doomed-Extended (r ∷ rs) set still =
      let mid = add_doomed was release r (set, still) in
      let first = add_doomed-Extended r set still in
      let later = add_all_doomed-Extended rs mid.0 mid.1 in
      (
        λ x i. both (λ j. first.0 x j) (later.0 x i),
        λ x i. both (λ j. first.1 x j) (later.1 x i),
        later.2 ∙ first.2,
      )
    where
      both :
          {x : DepartedResource} {P M Q : Type 0}
          → (M → P ⊎ (In x (r ∷ []) × Q))
          → M ⊎ (In x rs × Q)
          → P ⊎ (In x (r ∷ rs) × Q)
      both f (inl m) = elim (f m) [
        | inl p ↦ inl p
        | inr (inl e, q) ↦ inr (inl e, q)
        | inr (inr b, q) ↦ absurd b
      ]
      both f (inr (i, q)) = inr (inr i, q)
