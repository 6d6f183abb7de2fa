-- ===== src/Prune/Calls.antt =====
-- The calls that prune/prune.go makes, and what answers them. The chart backend, the chart engine,
-- the registry of swarms, the clock and the logger are not modelled: the program's side of each is an
-- event, and the answer to a call is any function of the events so far, the call itself at the head.
use swarmcli_cd.Base.{ℕ, Bool, true, false, Option, List, Str, Outcome}
use swarmcli_cd.Prune.Rule.{Release}

-- swarms.Node
pub record Node : Type 0 where
  pub id : Str
  pub hostname : Str

-- The daemon that a volume call goes to: the controller's own backend, or one node's.
pub data Host : Type 0 where
  own : Host
  at : Node → Host

pub data Event : Type 0 where
  resolve_swarm list_releases list_nodes count_nodes wait : Event
  remove_stack uninstall : Str → Event
  reach_node : Node → Event
  list_volumes : Host → Str → Event
  remove_volume : Host → Str → Event
  remove_stack_volume : Host → Str → Str → Event
  warn_named_outside warn_deleted_here warn_this_node_only : Str → List Str → Event
  warn_deleted_some : Str → List Str → Event
  warn_deleted_everywhere warn_not_all_nodes : Str → List Node → List Str → Event
  warn_own_stack warn_pruned : Str → Str → Event
  warn_networks_left : Str → Str → List Str → Event

-- The newest event first.
abbrev pub Trace : Type 0
Trace = List Event

-- The two sentinels that the code tests for, an error of a component outside, and the wrappers of
-- the code, a constructor for each text.
pub data Error : Type 0 where
  own_stack volume_left : Error
  outside : ℕ → Error
  no_node_reached : Str → Error
  out_of_rounds : Error
  still_in_use removing_the_stack listing_nodes listing_volumes : Error → Error
  resolving_swarm listing_releases rechecking : Error → Error
  reaching_node listing_node_volumes : Node → Error → Error
  removing_volume : Host → Str → Error → Error
  pruning : Str → Str → Error → Error

-- `errors.Is(err, capability.ErrOwnStack)`: every wrapper of the code passes its error on by `%w`.
unfoldable pub is_own_stack : Error → Bool
is_own_stack own_stack = true
is_own_stack volume_left = false
is_own_stack (outside n) = false
is_own_stack (no_node_reached r) = false
is_own_stack out_of_rounds = false
is_own_stack (still_in_use e) = is_own_stack e
is_own_stack (removing_the_stack e) = is_own_stack e
is_own_stack (listing_nodes e) = is_own_stack e
is_own_stack (listing_volumes e) = is_own_stack e
is_own_stack (resolving_swarm e) = is_own_stack e
is_own_stack (listing_releases e) = is_own_stack e
is_own_stack (rechecking e) = is_own_stack e
is_own_stack (reaching_node n e) = is_own_stack e
is_own_stack (listing_node_volumes n e) = is_own_stack e
is_own_stack (removing_volume h v e) = is_own_stack e
is_own_stack (pruning r a e) = is_own_stack e

-- `errors.Is(err, capability.ErrVolumeLeft)`, asked of what a backend answers.
unfoldable pub is_volume_left : Error → Bool
is_volume_left volume_left = true
is_volume_left _ = false

-- What answers: `fails` the calls that return only an error, the others those with a value.
pub record Swarm : Type 0 where
  pub fails : Trace → Option Error
  pub releases : Trace → Outcome Error (List Release)
  pub volumes : Trace → Outcome Error (List Str)
  pub nodes : Trace → Outcome Error (List Node)
  -- `none` for a backend that cannot count, or that failed to
  pub size : Trace → Option ℕ
  -- the networks that `charts.Engine.Uninstall` reports it left
  pub uninstalled : Trace → Outcome Error (List Str)
  -- the registry implements `swarms.NodeReach`
  pub has_node_reach : Bool
  -- the backend implements `capability.StackVolumeRemover`
  pub has_stack_remover : Host → Bool
  pub now : Trace → ℕ
  -- `ctx.Err() != nil`, and whether a wait ended by the context rather than by its timer
  pub is_cancelled : Trace → Bool
  pub is_interrupted : Trace → Bool
  pub context_error : Error
