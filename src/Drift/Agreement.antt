-- ===== src/Drift/Agreement.antt =====
-- drift/drift.go agrees with itself and with the reconciler on what a plan would change.
use swarmcli_cd.Base.{suc, ◌+◌, ◌≡◌, ◌↔◌, refl, List, [], ◌∷◌, Str, All, arith}
use swarmcli_cd.Application.{synced}
use swarmcli_cd.Reconcile.Installs.{Action, install, upgrade, unchanged, ReleasePlan, unsettled}
use swarmcli_cd.Drift.{
  Summary, ReleaseStatus, ReleaseDiff, release_status, release_statuses, from_plan, diffs,
}

-- The releases of each action, counted.
abbrev pub add_action : Action → Summary → Summary
add_action install c = record c { install = suc c.install }
add_action upgrade c = record c { upgrade = suc c.upgrade }
add_action unchanged c = record c { unchanged = suc c.unchanged }

abbrev pub count_actions : List ReleasePlan → Summary
count_actions [] = record { install = 0; upgrade = 0; unchanged = 0 }
count_actions (r ∷ rs) = add_action r.action (count_actions rs)

abbrev pub diff_names : List ReleaseDiff → List Str
diff_names [] = []
diff_names (d ∷ ds) = d.release ∷ diff_names ds

abbrev pub status_names : List ReleaseStatus → List Str
status_names [] = []
status_names (r ∷ rs) = r.name ∷ status_names rs

abbrev pub plan_names : List ReleasePlan → List Str
plan_names [] = []
plan_names (r ∷ rs) = r.name ∷ plan_names rs

changes_iff :
    (plan : List ReleasePlan)
    → ((count_actions plan).install + (count_actions plan).upgrade ≡ 0) ↔ (unsettled plan ≡ [])
unfolding unsettled
changes_iff [] = ground arith
changes_iff (r ∷ rs) = ground (arith, changes_iff rs)

statuses_iff :
    (plan : List ReleasePlan)
    → All (λ (x : ReleaseStatus). x.sync ≡ synced) (release_statuses plan) ↔ (unsettled plan ≡ [])
unfolding release_statuses release_status unsettled
statuses_iff [] = ground arith
statuses_iff (r ∷ rs) = ground (arith, statuses_iff rs)

status_names_lem :
    (plan : List ReleasePlan) → status_names (release_statuses plan) ≡ plan_names plan
unfolding release_statuses release_status
status_names_lem [] = refl
status_names_lem (r ∷ rs) = ground (arith, status_names_lem rs)

module _ (lines : Str → Str → Str) where
  diffs-unsettled : (plan : List ReleasePlan) → diff_names (diffs lines plan) ≡ unsettled plan
  unfolding diffs unsettled
  diffs-unsettled [] = refl
  diffs-unsettled (r ∷ rs) = ground (arith, diffs-unsettled rs)

  -- With an engine that counts the actions of a plan: the application is Synced exactly if the plan
  -- is settled, and exactly if each of its releases is Synced; the releases are the plan's, in its
  -- order; and the diffs are of the releases that are not settled.
  pub from_plan_agrees :
      (counts : List ReleasePlan → Summary)
      → ((plan : List ReleasePlan) → counts plan ≡ count_actions plan)
      → (plan : List ReleasePlan)
      → let (sync, releases) = from_plan counts plan in
        ((sync.state ≡ synced) ↔ (unsettled plan ≡ []))
        × ((sync.state ≡ synced) ↔ All (λ (x : ReleaseStatus). x.sync ≡ synced) releases)
        × (status_names releases ≡ plan_names plan)
        × (diff_names (diffs lines plan) ≡ unsettled plan)
  unfolding from_plan
  from_plan_agrees counts exact plan = ground (
    arith,
    exact plan,
    changes_iff plan,
    statuses_iff plan,
    status_names_lem plan,
    diffs-unsettled plan,
  )
