-- ===== src/Prune/Sweep.antt =====
-- The sweep of departed applications: prune/prune.go, Release, uninstall, stillListed, Departing,
-- Departed.
pub mod Safety
pub mod Whole
pub mod Emptied
use swarmcli_cd.Base.{
  ℕ, zero, suc, Bool, true, false, Option, none, some, List, [], ◌∷◌, ◌++◌, map, Str, Outcome, ok,
  err, elem, is_empty, ◌==◌, if◌then◌else◌,
}
use swarmcli_cd.Prune.Calls.{
  Event, resolve_swarm, list_releases, remove_stack, uninstall, warn_own_stack, warn_pruned,
  warn_networks_left, Trace, Error, is_own_stack, removing_the_stack, resolving_swarm,
  listing_releases, rechecking, pruning, Swarm,
}
use swarmcli_cd.Prune.Rule.{Release, OwnerRef, DepartedApp, departed}
use swarmcli_cd.Prune.Volumes.{purge_volumes}

-- The release names of a listing.
abbrev pub release_names : List Release → List Str
release_names [] = []
release_names (r ∷ rs) = r.name ∷ release_names rs

-- One release's uninstall error, beside the release.
pub record Failure : Type 0 where
  pub release : Str
  pub error : Error

unfoldable pub reasons : List Failure → List Error
reasons [] = []
reasons (f ∷ fs) = f.error ∷ reasons fs

-- The failures whose releases the swarm still has.
unfoldable pub still_present : List Str → List Failure → List Failure
still_present present [] = []
still_present present (f ∷ fs) =
    let rest = still_present present fs in if elem f.release present then f ∷ rest else rest

-- What became of one application: emptied and reported so, kept for the controller's own stack,
-- or left with errors.
pub data Verdict : Type 0 where
  emptied kept : Verdict
  unresolved : List Error → Verdict

-- `purges_volumes` is the pruner's setting `volumes`.
module _ (s : Swarm) (purges_volumes : Bool) where
  -- The records go only after the stack and, if asked for, its volumes have gone.
  unfoldable pub delete_records : Str → Trace → Outcome Error (List Str) × Trace
  delete_records release tr = (s.uninstalled (uninstall release ∷ tr), uninstall release ∷ tr)

  unfoldable pub delete_release : Str → Trace → Outcome Error (List Str) × Trace
  delete_release release tr =
      let tr1 = remove_stack release ∷ tr in
      elim (s.fails tr1) [
        | some e ↦ (err (removing_the_stack e), tr1)
        | none ↦
            if purges_volumes
            then (let (r, tr2) = purge_volumes s release tr1 in
                elim r [ some e ↦ (err e, tr2) | none ↦ delete_records release tr2 ])
            else delete_records release tr1
      ]

  -- The method `uninstall`, which reports what it did.
  unfoldable pub uninstall_release : Str → Str → Trace → Option Error × Trace
  uninstall_release app release tr =
      let (r, tr1) = delete_release release tr in
      elim r [
        | err e ↦ (some (pruning release app e), tr1)
        | ok networks ↦ (
          none,
          if is_empty networks
              then warn_pruned app release ∷ tr1
              else warn_networks_left app release networks ∷ warn_pruned app release ∷ tr1,
        )
      ]

  -- The inner loop of `Departed`: the failures, and how many stacks were the controller's own.
  unfoldable pub uninstall_all :
      Str → List Str → List Failure → ℕ → Trace → (List Failure × ℕ) × Trace
  uninstall_all app [] failed left tr = ((failed, left), tr)
  uninstall_all app (r ∷ rs) failed left tr =
      let (e, tr1) = uninstall_release app r tr in
      elim e [
        | none ↦ uninstall_all app rs failed left tr1
        | some x ↦
            uninstall_all app rs
              (if is_own_stack x
                then failed
                else failed ++ (record { release = r; error = x } ∷ []))
              (if is_own_stack x then suc left else left)
              (if is_own_stack x then warn_own_stack app r ∷ tr1 else tr1)
      ]

  unfoldable pub still_listed : List Failure → Trace → Outcome Error (List Failure) × Trace
  still_listed failed tr =
      let tr1 = list_releases ∷ tr in
      elim (s.releases tr1) [
        | err e ↦ (err (rechecking e), tr1)
        | ok rels ↦ (ok (still_present (release_names rels) failed), tr1)
      ]

  -- The body of the outer loop, after the inner one. `errors.Join` of a join is the join of all:
  -- the same text and the same `errors.Is`.
  unfoldable pub judge : List Failure → ℕ → Trace → Verdict × Trace
  judge [] left tr = (if left == 0 then emptied else kept, tr)
  judge (f ∷ fs) left tr =
      let (r, tr1) = still_listed (f ∷ fs) tr in
      elim r [
        | err e ↦ (unresolved (reasons (f ∷ fs) ++ (e ∷ [])), tr1)
        | ok still ↦ (if is_empty still then emptied else unresolved (reasons still), tr1)
      ]

  unfoldable pub sweep_app : DepartedApp → Trace → Verdict × Trace
  sweep_app app tr = let (r, tr1) = uninstall_all app.name app.releases [] 0 tr in judge r.0 r.1 tr1

  -- The outer loop of `Departed`, on the names pruned and the errors so far.
  unfoldable pub sweep_apps :
      List DepartedApp → List Str → List Error → Trace → (List Str × List Error) × Trace
  sweep_apps [] pruned errs tr = ((pruned, errs), tr)
  sweep_apps (app ∷ apps) pruned errs tr =
      let (v, tr1) = sweep_app app tr in
      elim v [
        | emptied ↦ sweep_apps apps (pruned ++ (app.name ∷ [])) errs tr1
        | kept ↦ sweep_apps apps pruned errs tr1
        | unresolved es ↦ sweep_apps apps pruned (errs ++ es) tr1
      ]

  module _ (parse_owner : Str → Option OwnerRef) (kind_release : Str) (desired declared : List Str)
      (controller : Str) where
    -- What both `Departing` and `Departed` begin with: the groups, or why there are none.
    unfoldable pub find_departed : Trace → Outcome Error (List DepartedApp) × Trace
    find_departed tr =
        let tr1 = resolve_swarm ∷ tr in
        let tr2 = list_releases ∷ tr1 in
        elim (s.fails tr1) [
          | some e ↦ (err (resolving_swarm e), tr1)
          | none ↦ elim (s.releases tr2) [
            | err e ↦ (err (listing_releases e), tr2)
            | ok rels ↦
                (ok (departed parse_owner kind_release desired declared controller rels), tr2)
          ]
        ]

    unfoldable pub departing : Trace → Outcome Error (List Str) × Trace
    departing tr =
        let (r, tr1) = find_departed tr in
        elim r [
          | err e ↦ (err e, tr1)
          | ok apps ↦ (ok (map (λ (g : DepartedApp). g.name) apps), tr1)
        ]

    -- The names pruned, and the errors that are joined.
    unfoldable pub departed_sweep : Trace → (List Str × List Error) × Trace
    departed_sweep tr =
        let (r, tr1) = find_departed tr in
        elim r [ err e ↦ (([], e ∷ []), tr1) | ok apps ↦ sweep_apps apps [] [] tr1 ]
