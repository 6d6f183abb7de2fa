-- ===== src/Prune/Volumes.antt =====
-- The deletion of a release's volumes: prune/prune.go, settle, removeVolume, withinRelease,
-- purgeEveryNode, purgeThisNode, purgeVolumes.
pub mod Footprint
pub mod Settle
use swarmcli_cd.Base.{
  ℕ, zero, suc, ◌+◌, Bool, true, false, Option, none, some, List, [], ◌∷◌, ◌++◌, Str, Outcome, ok,
  err, has_prefix, is_empty, length, ltb, ◌==◌, ◌&&◌, keep, not, if◌then◌else◌,
}
use swarmcli_cd.Owner.{underscore}
use swarmcli_cd.Prune.Calls.{
  Node, Host, own, at, Event, resolve_swarm, list_nodes, count_nodes, wait, reach_node,
  list_volumes, remove_volume, remove_stack_volume, warn_named_outside, warn_deleted_here,
  warn_this_node_only, warn_deleted_some, warn_deleted_everywhere, warn_not_all_nodes, Trace, Error,
  is_volume_left, no_node_reached, out_of_rounds, still_in_use, listing_nodes, listing_volumes,
  reaching_node, listing_node_volumes, removing_volume, Swarm,
}

-- In nanoseconds, as Go's `time.Duration`.
abbrev pub volume_settle_timeout : ℕ
volume_settle_timeout = 30_000_000_000

abbrev pub volume_settle_interval : ℕ
volume_settle_interval = 2_000_000_000

-- How many rounds of `settle` are allowed for; `settle_ends` shows that no more are made.
abbrev pub settle_rounds : ℕ
settle_rounds = 17

-- How one removal ended: `gone` and `left` are Go's nil error, with `left` set in the second.
pub data Removal : Type 0 where
  gone left : Removal
  failed : Error → Removal

-- The name a purge uses for a node.
unfoldable pub node_name : Node → Str
node_name n = if is_empty n.hostname then n.id else n.hostname

-- What a purge may remove of a listing.
unfoldable pub is_within : Str → Str → Bool
is_within release name = has_prefix name (release ++ (underscore ∷ []))

unfoldable pub within_release : Str → List Str → List Str
unfolding is_within
within_release release names = keep (is_within release) names

unfoldable pub outside_release : Str → List Str → List Str
unfolding is_within
outside_release release names = keep (λ name. not (is_within release name)) names

-- The warning of `withinRelease`, made only if some name lies outside.
unfoldable pub warn_outside : Str → List Str → Trace → Trace
unfolding outside_release
warn_outside release names tr =
    if is_empty (outside_release release names)
    then tr
    else warn_named_outside release (outside_release release names) ∷ tr

-- A volume of a node is reported as "node/volume".
unfoldable pub volume_label : Host → Str → Str
volume_label own name = name
volume_label (at n) name = node_name n ++ (b'/' ∷ name)

module _ (s : Swarm) where
  open s use {
    fails, volumes, nodes, size, has_node_reach, has_stack_remover, now, is_cancelled,
    is_interrupted, context_error,
  }

  -- `volumeRemover`: by stack where the backend can check the volume, by name otherwise.
  unfoldable pub removal_call : Host → Str → Str → Event
  removal_call host release name =
      if has_stack_remover host
      then remove_stack_volume host release name
      else remove_volume host name

  abbrev pub removal_of : Option Error → Removal
  removal_of none = gone
  removal_of (some e) = if is_volume_left e then left else failed e

  -- The loop of `settle`, on the rounds that are left.
  unfoldable pub settle : ℕ → ℕ → Event → Trace → Removal × Trace
  settle zero deadline call tr = (failed out_of_rounds, tr)
  settle (suc rounds) deadline call tr =
      let tr1 = call ∷ tr in
      let again = settle rounds deadline call (wait ∷ tr1) in
      elim (removal_of (fails tr1)) [
        | gone ↦ (gone, tr1)
        | left ↦ (left, tr1)
        | failed e ↦
            if is_cancelled tr1
            then (failed context_error, tr1)
            else if ltb deadline (now tr1)
            then (failed (still_in_use e), tr1)
            else if is_interrupted (wait ∷ tr1)
            then (failed context_error, wait ∷ tr1)
            else again
      ]

  unfoldable pub remove_one : Host → Str → Str → Trace → Removal × Trace
  remove_one host release name tr =
      settle settle_rounds (now tr + volume_settle_timeout) (removal_call host release name) tr

  -- The loop over one listing. An error comes with what was deleted before it.
  unfoldable pub remove_names :
      Host → Str → List Str → List Str → Trace → Outcome (Error × List Str) (List Str) × Trace
  remove_names host release [] deleted tr = (ok deleted, tr)
  remove_names host release (name ∷ names) deleted tr =
      let (r, tr1) = remove_one host release name tr in
      elim r [
        | gone ↦ remove_names host release names (deleted ++ (volume_label host name ∷ [])) tr1
        | left ↦ remove_names host release names deleted tr1
        | failed e ↦ (err (removing_volume host name e, deleted), tr1)
      ]

  -- Listing one host's volumes and removing those within the release.
  unfoldable pub purge_host :
      (Error → Error)
      → Host
      → Str
      → List Str
      → Trace
      → Outcome (Error × List Str) (List Str) × Trace
  purge_host wrap host release deleted tr =
      let tr1 = list_volumes host release ∷ tr in
      elim (volumes tr1) [
        | err e ↦ (err (wrap e, deleted), tr1)
        | ok names ↦
            remove_names host release (within_release release names) deleted
              (warn_outside release names tr1)
      ]

  -- The loop of `purgeEveryNode`.
  unfoldable pub purge_nodes :
      Str → List Node → List Str → Trace → Outcome (Error × List Str) (List Str) × Trace
  purge_nodes release [] deleted tr = (ok deleted, tr)
  purge_nodes release (node ∷ rest) deleted tr =
      let tr1 = reach_node node ∷ tr in
      elim (fails tr1) [
        | some e ↦ (err (reaching_node node e, deleted), tr1)
        | none ↦
            let (r, tr2) = purge_host (listing_node_volumes node) (at node) release deleted tr1 in
            elim r [ err e ↦ (err e, tr2) | ok deleted' ↦ purge_nodes release rest deleted' tr2 ]
      ]

  -- `size, known := swarmSize(…); known && size == n`
  abbrev pub covers : Option ℕ → ℕ → Bool
  covers none n = false
  covers (some m) n = m == n

  -- What `purgeEveryNode` reports once every node it was given is done.
  unfoldable pub report_nodes : Str → List Node → List Str → Trace → Trace
  report_nodes release ns deleted tr =
      let tr1 = count_nodes ∷ tr in
      if covers (size tr1) (length ns)
      then (if is_empty deleted then tr1 else warn_deleted_everywhere release ns deleted ∷ tr1)
      else warn_not_all_nodes release ns deleted ∷ tr1

  unfoldable pub purge_every_node : Str → Trace → Option Error × Trace
  purge_every_node release tr =
      let tr1 = list_nodes ∷ tr in
      elim (nodes tr1) [
        | err e ↦ (some (listing_nodes e), tr1)
        | ok ns ↦
            if is_empty ns
            then (some (no_node_reached release), tr1)
            else (let (r, tr2) = purge_nodes release ns [] tr1 in
                elim r [
                  | err (e, deleted) ↦ (
                    some e,
                    if is_empty deleted then tr2 else warn_deleted_some release deleted ∷ tr2,
                  )
                  | ok deleted ↦ (none, report_nodes release ns deleted tr2)
                ])
      ]

  -- What `purgeThisNode` reports: a listing of one node is the swarm's only if it has one node.
  unfoldable pub report_here : Str → List Str → Trace → Trace
  report_here release removed tr =
      let tr1 = count_nodes ∷ tr in
      if covers (size tr1) 1
      then (if is_empty removed then tr1 else warn_deleted_here release removed ∷ tr1)
      else warn_this_node_only release removed ∷ tr1

  unfoldable pub purge_this_node : Str → Trace → Option Error × Trace
  purge_this_node release tr =
      let (r, tr1) = purge_host listing_volumes own release [] tr in
      elim r [
        | err (e, deleted) ↦ (some e, tr1)
        | ok removed ↦ (none, report_here release removed tr1)
      ]

  unfoldable pub purge_volumes : Str → Trace → Option Error × Trace
  purge_volumes release tr =
      if has_node_reach then purge_every_node release tr else purge_this_node release tr
