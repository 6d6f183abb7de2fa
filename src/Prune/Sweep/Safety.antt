-- ===== src/Prune/Sweep/Safety.antt =====
-- What a sweep touches, and in which order, whatever answers its calls.
use swarmcli_cd.Base.{
  ℕ, suc, ◌≡◌, refl, sym, subst, ◌⊎◌, inl, inr, Bool, none, List, [], ◌∷◌, ◌++◌, arith, Str,
  Outcome-cases, Option-cases, Bool-cases, All, In, if◌then◌else◌,
}
use swarmcli_cd.Prune.Calls.{
  Event, resolve_swarm, list_releases, remove_stack, uninstall, remove_volume, remove_stack_volume,
  warn_own_stack, warn_pruned, warn_networks_left, Trace, Error, is_own_stack, Swarm,
}
use swarmcli_cd.Prune.Rule.{DepartedApp}
use swarmcli_cd.Prune.Departing.{Holds}
use swarmcli_cd.Prune.Volumes.{purge_volumes}
use swarmcli_cd.Prune.Volumes.Footprint.{Within, PurgeEvent, purge_volumes-keeps}
use swarmcli_cd.Prune.Sweep.{
  Failure, delete_records, delete_release, uninstall_release, uninstall_all, still_listed, Verdict,
  emptied, kept, unresolved, judge, sweep_app, sweep_apps,
}

-- Stacks and records only of releases that may go, and volumes only named within such a release.
abbrev pub SweepEvent : (Str → Type 0) → Event → Type 0
SweepEvent May (remove_stack r) = May r
SweepEvent May (uninstall r) = May r
SweepEvent May (remove_volume h name) = (r : Str) × May r × Within r name
SweepEvent May (remove_stack_volume h r name) = May r × Within r name
SweepEvent May _ = Unit

pub Verdict-cases :
    (v : Verdict) → (v ≡ emptied) ⊎ ((v ≡ kept) ⊎ ((es : List Error) × (v ≡ unresolved es)))
Verdict-cases emptied = inl refl
Verdict-cases kept = inr (inl refl)
Verdict-cases (unresolved es) = inr (inr (es, refl))

module _ (s : Swarm) where
  -- At some earlier point the stack was taken down, and the call returned no error.
  abbrev pub Removed : Str → Trace → Type 0
  Removed r [] = ⊥
  Removed r (e ∷ tr) = ((e ≡ remove_stack r) × (s.fails (e ∷ tr) ≡ none)) ⊎ Removed r tr

  abbrev pub Before : Event → Trace → Type 0
  Before (uninstall r) tr = Removed r tr
  Before _ tr = Unit

  -- Every event is one that a sweep may make, and records are deleted after their stack.
  abbrev pub IsSafe : (Str → Type 0) → Trace → Type 0
  IsSafe May [] = Unit
  IsSafe May (e ∷ tr) = SweepEvent May e × Before e tr × IsSafe May tr

  module _ (May : Str → Type 0) where
    grow :
        (r : Str)
        → May r
        → (e : Event) (tr : Trace) → PurgeEvent r e
        → IsSafe May tr × Removed r tr
        → IsSafe May (e ∷ tr) × Removed r (e ∷ tr)
    grow r m resolve_swarm tr p q = absurd p
    grow r m list_releases tr p q = absurd p
    grow r m (remove_stack x) tr p q = absurd p
    grow r m (uninstall x) tr p q = absurd p
    grow r m (warn_own_stack a x) tr p q = absurd p
    grow r m (warn_pruned a x) tr p q = absurd p
    grow r m (warn_networks_left a x ns) tr p q = absurd p
    grow r m (remove_volume h name) tr p q = (((r, m, p), tt, q.0), inr q.1)
    grow r m (remove_stack_volume h x name) tr p q =
        (((subst May (sym p.0) m, subst (λ y. Within y name) (sym p.0) p.1), tt, q.0), inr q.1)
    grow r m _ tr p q = ((tt, tt, q.0), inr q.1)

    module _ (purges : Bool) where
      delete_records-IsSafe :
          (r : Str) (tr : Trace)
          → May r
          → IsSafe May tr × Removed r tr
          → IsSafe May (delete_records s purges r tr).1
      unfolding delete_records
      delete_records-IsSafe r tr m q = (m, q.1, q.0)

      delete_release-IsSafe :
          (r : Str) (tr : Trace)
          → May r
          → IsSafe May tr
          → IsSafe May (delete_release s purges r tr).1
      unfolding delete_release
      delete_release-IsSafe r tr m q = elim (Option-cases (s.fails (remove_stack r ∷ tr))) [
        | inr (x, e) ↦ let q1 : IsSafe May (remove_stack r ∷ tr) = (m, tt, q) in ground (arith, q1)
        | inl e ↦
            let q1 : IsSafe May (remove_stack r ∷ tr) × Removed r (remove_stack r ∷ tr) =
              ((m, tt, q), inl (refl, e)) in
            let p = purge_volumes s r (remove_stack r ∷ tr) in
            let q2 : IsSafe May p.1 × Removed r p.1 =
              purge_volumes-keeps s r (λ t. IsSafe May t × Removed r t) (grow r m)
                (remove_stack r ∷ tr) q1 in
            let d1 = delete_records-IsSafe r p.1 m q2 in
            let d2 = delete_records-IsSafe r (remove_stack r ∷ tr) m q1 in
            finish r tr e q1.0 q2.0 d1 d2
      ]
        where
          finish :
              (r : Str) (tr : Trace)
              → s.fails (remove_stack r ∷ tr) ≡ none
              → IsSafe May (remove_stack r ∷ tr)
              → IsSafe May (purge_volumes s r (remove_stack r ∷ tr)).1
              → IsSafe May (delete_records s purges r (purge_volumes s r (remove_stack r ∷ tr)).1).1
              → IsSafe May (delete_records s purges r (remove_stack r ∷ tr)).1
              → IsSafe May (delete_release s purges r tr).1
          finish r tr e q1 q2 d1 d2 = ground arith

      uninstall_release-IsSafe :
          (app r : Str) (tr : Trace)
          → May r
          → IsSafe May tr
          → IsSafe May (uninstall_release s purges app r tr).1
      unfolding uninstall_release
      uninstall_release-IsSafe app r tr m q =
          let d = delete_release s purges r tr in
          let q1 : IsSafe May d.1 = delete_release-IsSafe r tr m q in
          elim (Outcome-cases d.0) [
            | inr (x, e) ↦ ground (arith, q1)
            | inl (ns, e) ↦
                let q2 : IsSafe May (warn_pruned app r ∷ d.1) = (tt, tt, q1) in
                let q3 : IsSafe May (warn_networks_left app r ns ∷ warn_pruned app r ∷ d.1) =
                  (tt, tt, q2) in
                ground (arith, q2, q3)
          ]

      uninstall_all-IsSafe :
          (app : Str) (rs : List Str) (failed : List Failure) (left : ℕ) (tr : Trace)
          → All May rs
          → IsSafe May tr
          → IsSafe May (uninstall_all s purges app rs failed left tr).1
      unfolding uninstall_all
      uninstall_all-IsSafe app [] failed left tr m q = q
      uninstall_all-IsSafe app (r ∷ rs) failed left tr m q =
          let u = uninstall_release s purges app r tr in
          let q1 : IsSafe May u.1 = uninstall_release-IsSafe app r tr m.0 q in
          elim (Option-cases u.0) [
            | inl e ↦ ground (arith, uninstall_all-IsSafe app rs failed left u.1 m.1 q1)
            | inr (x, e) ↦
                let q2 : IsSafe May (if is_own_stack x then warn_own_stack app r ∷ u.1 else u.1) =
                  warned app r x u.1 q1 in
                ground (
                  arith,
                  uninstall_all-IsSafe app rs
                      (if is_own_stack x
                        then failed
                        else failed ++ (record { release = r; error = x } ∷ []))
                      (if is_own_stack x then suc left else left)
                      (if is_own_stack x then warn_own_stack app r ∷ u.1 else u.1) m.1 q2,
                )
          ]
        where
          warned :
              (a r : Str) (x : Error) (t : Trace)
              → IsSafe May t
              → IsSafe May (if is_own_stack x then warn_own_stack a r ∷ t else t)
          warned a r x t k = elim (Bool-cases (is_own_stack x)) [
            | inl e ↦ rw e (tt, tt, k)
            | inr e ↦ rw e k
          ]

      judge-IsSafe :
          (failed : List Failure) (left : ℕ) (tr : Trace)
          → IsSafe May tr
          → IsSafe May (judge s purges failed left tr).1
      unfolding judge still_listed
      judge-IsSafe [] left tr q = q
      judge-IsSafe (f ∷ fs) left tr q =
          let q1 : IsSafe May (list_releases ∷ tr) = (tt, tt, q) in ground (arith, q1)

      sweep_app-IsSafe :
          (app : DepartedApp) (tr : Trace)
          → All May app.releases
          → IsSafe May tr
          → IsSafe May (sweep_app s purges app tr).1
      unfolding sweep_app
      sweep_app-IsSafe app tr m q =
          let u = uninstall_all s purges app.name app.releases [] 0 tr in
          judge-IsSafe u.0.0 u.0.1 u.1 (uninstall_all-IsSafe app.name app.releases [] 0 tr m q)

      -- every release of every group may go
      abbrev pub AllMay : List DepartedApp → Type 0
      AllMay [] = Unit
      AllMay (g ∷ gs) = All May g.releases × AllMay gs

      pub sweep_apps-IsSafe :
          (apps : List DepartedApp) (pruned : List Str) (errs : List Error) (tr : Trace)
          → AllMay apps
          → IsSafe May tr
          → IsSafe May (sweep_apps s purges apps pruned errs tr).1
      unfolding sweep_apps
      sweep_apps-IsSafe [] pruned errs tr m q = q
      sweep_apps-IsSafe (g ∷ gs) pruned errs tr m q =
          let v = sweep_app s purges g tr in
          let q1 : IsSafe May v.1 = sweep_app-IsSafe g tr m.0 q in
          elim (Verdict-cases v.0) [
            | inl e ↦ ground (arith, sweep_apps-IsSafe gs (pruned ++ (g.name ∷ [])) errs v.1 m.1 q1)
            | inr (inl e) ↦ ground (arith, sweep_apps-IsSafe gs pruned errs v.1 m.1 q1)
            | inr (inr (es, e)) ↦
                ground (arith, sweep_apps-IsSafe gs pruned (errs ++ es) v.1 m.1 q1)
          ]

      All-of_members : (rs : List Str) → ((r : Str) → In r rs → May r) → All May rs
      All-of_members [] h = tt
      All-of_members (r ∷ rs) h = (h r (inl refl), All-of_members rs (λ x i. h x (inr i)))

      pub AllMay-of_Holds :
          (gs : List DepartedApp) → ((a r : Str) → Holds a r gs → May r) → AllMay gs
      AllMay-of_Holds [] h = tt
      AllMay-of_Holds (g ∷ gs) h = (
        All-of_members g.releases (λ r i. h g.name r (inl (refl, i))),
        AllMay-of_Holds gs (λ a r k. h a r (inr k)),
      )
