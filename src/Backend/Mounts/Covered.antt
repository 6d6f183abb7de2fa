-- ===== src/Backend/Mounts/Covered.antt =====
-- What the set read off the controller's own service, of backend/selfmounts.go, holds; and when the
-- read is made again.
use swarmcli_cd.Base.{
  ◌≡◌, ◌≢◌, ◌↔◌, ◌⊎◌, true, false, str, has_prefix, is_empty, if◌then◌else◌, Bool-cases, inl, inr,
  refl, sym, subst, Option, none, some, List, [], ◌∷◌, ◌++◌, arith, Str, In, In-append, Outcome, ok,
  err, map,
}
use swarmcli_cd.Backend.{
  MountKind, bind_mount, volume_mount, cluster_mount, other_mount, Mount, Container, SelfMounts,
  label_at,
}
use swarmcli_cd.Backend.Records.{Platform}
use swarmcli_cd.Backend.Mounts.{
  OwnService, SelfReads, groups_of, named_groups, volumes_of, binds_of, add_mount, add_mounts,
  with_mount, referenced, mounts_of_service, cached_mounts, cached_run,
}

module _ (pf : Platform) (r : SelfReads) where
  -- The source of a volume or of a cluster mount.
  abbrev pub SourceOf : Mount → Str → Type 0
  SourceOf m n =
      ((m.kind ≡ volume_mount) ⊎ (m.kind ≡ cluster_mount)) × (m.source ≢ []) × (n ≡ m.source)

  -- The group that the daemon has for a cluster volume which is mounted by its own name.
  abbrev pub GroupOf : Mount → Str → Type 0
  GroupOf m n =
      (m.kind ≡ cluster_mount)
      × (m.source ≢ [])
      × (has_prefix m.source (str "group:") ≡ false)
      × ((g : Str) × (r.group m.source ≡ ok (some g)) × (g ≢ []) × (n ≡ str "group:" ++ g))

  abbrev pub VolumeName : Mount → Str → Type 0
  VolumeName m n = SourceOf m n ⊎ GroupOf m n

  -- The path of the host that a bind mounts.
  abbrev pub Bound : Mount → Str → Type 0
  Bound m n = (m.kind ≡ bind_mount) × (m.source ≢ []) × (n ≡ m.source)

  In-one : (s n : Str) → In n (if is_empty s then [] else s ∷ []) ↔ ((s ≢ []) × (n ≡ s))
  In-one [] n = ground arith
  In-one (c ∷ cs) n = ground arith

  Kind-cases :
      (k : MountKind)
      → (k ≡ bind_mount) ⊎ ((k ≡ volume_mount) ⊎ ((k ≡ cluster_mount) ⊎ (k ≡ other_mount)))
  Kind-cases bind_mount = inl refl
  Kind-cases volume_mount = inr (inl refl)
  Kind-cases cluster_mount = inr (inr (inl refl))
  Kind-cases other_mount = inr (inr (inr refl))

  volumes_of_iff : (m : Mount) (n : Str) → In n (volumes_of pf r m) ↔ SourceOf m n
  volumes_of_iff m n = elim (Kind-cases m.kind) [
    | inl e ↦ rw e (ground arith)
    | inr (inl e) ↦ rw e (ground (arith, In-one m.source n))
    | inr (inr (inl e)) ↦ rw e (ground (arith, In-one m.source n))
    | inr (inr (inr e)) ↦ rw e (ground arith)
  ]

  binds_of_iff : (m : Mount) (n : Str) → In n (binds_of pf r m) ↔ Bound m n
  binds_of_iff m n = elim (Kind-cases m.kind) [
    | inl e ↦ rw e (ground (arith, In-one m.source n))
    | inr (inl e) ↦ rw e (ground arith)
    | inr (inr (inl e)) ↦ rw e (ground arith)
    | inr (inr (inr e)) ↦ rw e (ground arith)
  ]

  group_names_of :
      (g n : Str)
      → In n (if is_empty g then [] else (str "group:" ++ g) ∷ [])
        ↔ ((g ≢ []) × (n ≡ str "group:" ++ g))
  group_names_of [] n = ground arith
  group_names_of (c ∷ cs) n = ground arith

  -- The daemon's answer on a cluster volume names a group.
  abbrev Grouped : Outcome Str (Option Str) → Str → Type 0
  Grouped o n = (g : Str) × (o ≡ ok (some g)) × (g ≢ []) × (n ≡ str "group:" ++ g)

  named_groups_iff :
      (o : Outcome Str (Option Str)) (gs : List Str) (n : Str)
      → named_groups pf r o ≡ ok gs
      → In n gs ↔ Grouped o n
  named_groups_iff (err e) gs n h = cc
  named_groups_iff (ok none) gs n h =
      let same : [] ≡ gs = ground arith in
      subst (λ xs. In n xs ↔ Grouped (ok none) n) same ((λ i. absurd i), λ (g, q, c, e). cc)
  named_groups_iff (ok (some g)) gs n h =
      let same : (if is_empty g then [] else (str "group:" ++ g) ∷ []) ≡ gs = ground arith in
      subst (λ xs. In n xs ↔ Grouped (ok (some g)) n) same
        (
          (λ i. let (c, e) = (group_names_of g n).0 i in (g, refl, c, e)),
          λ (x, q, c, e).
              let here : g ≡ x = ground arith in
              (group_names_of g n).1
                (subst (λ y. (y ≢ []) × (n ≡ str "group:" ++ y)) (sym here) (c, e)),
        )

  is_empty_nil : (xs : Str) → is_empty xs ≡ true → xs ≡ []
  is_empty_nil [] e = refl
  is_empty_nil (x ∷ xs) e = ground arith

  nothing : (gs : List Str) (n : Str) (G : Type 0) → [] ≡ gs → ¬ G → In n gs ↔ G
  nothing gs n G e not_so = subst (λ xs. In n xs ↔ G) e ((λ i. absurd i), λ g. absurd (not_so g))

  groups_of_iff :
      (m : Mount) (gs : List Str) (n : Str) → groups_of pf r m ≡ ok gs → In n gs ↔ GroupOf m n
  groups_of_iff m gs n h = elim (Kind-cases m.kind) [
    | inl e ↦ nothing gs n (GroupOf m n) (ground arith) (λ g. ground (arith, g.0))
    | inr (inl e) ↦ nothing gs n (GroupOf m n) (ground arith) (λ g. ground (arith, g.0))
    | inr (inr (inr e)) ↦ nothing gs n (GroupOf m n) (ground arith) (λ g. ground (arith, g.0))
    | inr (inr (inl e)) ↦ elim (Bool-cases (is_empty m.source)) [
      | inl k ↦
          nothing gs n (GroupOf m n) (ground arith) (λ g. absurd (g.1 (is_empty_nil m.source k)))
      | inr k ↦ elim (Bool-cases (has_prefix m.source (str "group:"))) [
        | inl q ↦ nothing gs n (GroupOf m n) (ground arith) (λ g. ground (arith, g.2))
        | inr q ↦
            let i = named_groups_iff (r.group m.source) gs n (ground arith) in
            (λ x. (e, (λ z. ground arith), q, i.0 x), λ g. i.1 g.3)
      ]
    ]
  ]

  abbrev pub Names : (Mount → Str → Type 0) → List Mount → Str → Type 0
  Names P ms n = (m : Mount) × In m ms × P m n

  Names-cons :
      (P : Mount → Str → Type 0) (n : Str) (m : Mount) (ms : List Mount)
      → Names P (m ∷ ms) n ↔ (P m n ⊎ Names P ms n)
  Names-cons P n m ms = (there, back)
    where
      there : Names P (m ∷ ms) n → P m n ⊎ Names P ms n
      there (x, (inl e), h) = inl (subst (λ y. P y n) e h)
      there (x, (inr i), h) = inr (x, i, h)

      back : P m n ⊎ Names P ms n → Names P (m ∷ ms) n
      back (inl h) = (m, inl refl, h)
      back (inr (x, i, h)) = (x, inr i, h)

  VolumeName-iff :
      (m : Mount) (gs : List Str) (n : Str)
      → groups_of pf r m ≡ ok gs
      → VolumeName m n ↔ (In n (volumes_of pf r m) ⊎ In n gs)
  VolumeName-iff m gs n k = ground (arith, volumes_of_iff m n, groups_of_iff m gs n k)

  -- What the loop over the mounts leaves, name by name.
  abbrev Added : List Mount → SelfMounts → SelfMounts → Str → Type 0
  Added ms out out' n =
      (In n out'.volumes ↔ (Names VolumeName ms n ⊎ In n out.volumes))
      × (In n out'.binds ↔ (Names Bound ms n ⊎ In n out.binds))

  grouped :
      {v v1 nm nc vn w g x : Type 0}
      → v ↔ (nm ⊎ v1)
      → v1 ↔ (g ⊎ (w ⊎ x))
      → vn ↔ (w ⊎ g)
      → nc ↔ (vn ⊎ nm)
      → v ↔ (nc ⊎ x)
  grouped h i j k = ground arith

  bound :
      {v v1 nm nc w u x : Type 0}
      → v ↔ (nm ⊎ v1)
      → v1 ↔ (w ⊎ x)
      → w ↔ u
      → nc ↔ (u ⊎ nm)
      → v ↔ (nc ⊎ x)
  bound h i k j = ground arith

  In-append3 :
      (n : Str) (xs ys zs : List Str) → In n (xs ++ (ys ++ zs)) ↔ (In n xs ⊎ (In n ys ⊎ In n zs))
  In-append3 n xs ys zs = ground (arith, In-append n xs (ys ++ zs), In-append n ys zs)

  Added-cons :
      (m : Mount) (ms : List Mount) (gs : List Str) (out out' : SelfMounts) (n : Str)
      → groups_of pf r m ≡ ok gs
      → Added ms (with_mount pf r m gs out) out' n
      → Added (m ∷ ms) out out' n
  Added-cons m ms gs out out' n k (v, b) = (
    grouped v (In-append3 n gs (volumes_of pf r m) out.volumes) (VolumeName-iff m gs n k)
        (Names-cons VolumeName n m ms),
    bound b (In-append n (binds_of pf r m) out.binds) (binds_of_iff m n) (Names-cons Bound n m ms),
  )

  Names-nil : (P : Mount → Str → Type 0) (n : Str) → ¬ (Names P [] n)
  Names-nil P n (m, i, h) = i

  Added-nil : (out out' : SelfMounts) (n : Str) → out ≡ out' → Added [] out out' n
  Added-nil out out' n e =
      subst (λ o. Added [] out o n) e
        (
          (λ i. inr i, λ h. elim h [ inl x ↦ absurd (Names-nil VolumeName n x) | inr i ↦ i ]),
          (λ i. inr i, λ h. elim h [ inl x ↦ absurd (Names-nil Bound n x) | inr i ↦ i ]),
        )

  -- The fields that the loop leaves as they are.
  abbrev Same : SelfMounts → SelfMounts → Type 0
  Same out out' =
      (out'.namespace ≡ out.namespace)
      × (out'.service_id ≡ out.service_id)
      × (out'.secrets ≡ out.secrets)
      × (out'.configs ≡ out.configs)

  add_mount-Added :
      (m : Mount) (ms : List Mount) (o : Outcome Str (List Str)) (out out' : SelfMounts)
      → groups_of pf r m ≡ o
      → ((mid : SelfMounts)
          → add_mounts pf r ms mid ≡ ok out'
          → Same mid out' × ((n : Str) → Added ms mid out' n))
      → add_mount pf r m o (add_mounts pf r ms) out ≡ ok out'
      → Same out out' × ((n : Str) → Added (m ∷ ms) out out' n)
  add_mount-Added m ms (err e) out out' k later h = cc
  add_mount-Added m ms (ok gs) out out' k later h =
      let (same, rest) = later (with_mount pf r m gs out) h in
      (same, λ n. Added-cons m ms gs out out' n k (rest n))

  add_mounts-Added :
      (ms : List Mount) (out out' : SelfMounts)
      → add_mounts pf r ms out ≡ ok out'
      → Same out out' × ((n : Str) → Added ms out out' n)
  unfolding add_mounts
  add_mounts-Added [] out out' h = (ground arith, λ n. Added-nil out out' n (ground arith))
  add_mounts-Added (m ∷ ms) out out' h =
      add_mount-Added m ms (groups_of pf r m) out out' refl (λ mid. add_mounts-Added ms mid out') h

  -- The names that one container mounts, each found again in the set, and nothing else in it.
  abbrev pub Covers : OwnService → Container → SelfMounts → Type 0
  Covers svc cs mine =
      (mine.namespace ≡ label_at pf.label_namespace svc.labels)
      × (mine.service_id ≡ svc.id)
      × (mine.secrets ≡ map (λ s. s.name) cs.secrets)
      × (mine.configs ≡ map (λ c. c.name) cs.configs)
      × ((n : Str)
          → (In n mine.volumes ↔ Names VolumeName cs.mounts n)
            × (In n mine.binds ↔ Names Bound cs.mounts n))

  -- What is read off a service that runs a container: its stack and id, the secrets and configs that
  -- the container mounts, of its mounts the source of each volume, cluster volume and bind, and
  -- the group of a cluster volume that is named by itself; and no other name.
  pub mounts_of_service-Covers :
      (svc : OwnService) (cs : Container) (mine : SelfMounts)
      → svc.container ≡ some cs
      → mounts_of_service pf r svc ≡ ok mine
      → Covers svc cs mine
  unfolding mounts_of_service
  mounts_of_service-Covers svc cs mine e h =
      let (same, added) = add_mounts-Added cs.mounts (referenced pf r svc cs) mine (ground arith) in
      (same.0, same.1, same.2, same.3, λ n. (no_more (added n).0, no_more (added n).1))
    where
      no_more : {v x : Type 0} → v ↔ (x ⊎ ⊥) → v ↔ x
      no_more i = ground arith

-- The first read that was no error.
abbrev pub first_answer : List (Outcome Str SelfMounts) → Option SelfMounts
first_answer [] = none
first_answer (ok val ∷ rest) = some val
first_answer (err e ∷ rest) = first_answer rest

-- What each call returns: its own error before the first answer, and that answer from there on.
abbrev pub Returned : List (Outcome Str SelfMounts) → List (Outcome Str SelfMounts) → Type 0
Returned [] outs = outs ≡ []
Returned (err e ∷ rest) outs =
    (later : List (Outcome Str SelfMounts)) × (outs ≡ err e ∷ later) × Returned rest later
Returned (ok val ∷ rest) outs = outs ≡ ok val ∷ map (λ _. ok val) rest

cached_run-some :
    (val : SelfMounts) (answers : List (Outcome Str SelfMounts))
    → cached_run (some val) answers ≡ (map (λ _. ok val) answers, some val)
unfolding cached_run cached_mounts
cached_run-some val [] = refl
cached_run-some val (a ∷ rest) = rw (cached_run-some val rest) refl

-- Of the calls for the controller's mounts, in any number, each fails as its own read does until one
-- is answered; from there on every call returns that answer, which is what is remembered.
pub cached_run_exact :
    (answers : List (Outcome Str SelfMounts))
    → Returned answers (cached_run none answers).0
      × ((cached_run none answers).1 ≡ first_answer answers)
unfolding cached_run cached_mounts
cached_run_exact [] = (refl, refl)
cached_run_exact (err e ∷ rest) =
    let (r, l) = cached_run_exact rest in (((cached_run none rest).0, refl, r), l)
cached_run_exact (ok val ∷ rest) = rw (cached_run-some val rest) (refl, refl)
