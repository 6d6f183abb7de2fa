-- ===== src/AppSet/Loop.antt =====
-- appset/loop.go: bringing the running set to the desired one, and the sweep behind its guards.
pub mod Converge
pub mod Reached
pub mod Guards
pub mod Confirmed
use swarmcli_cd.Base.{
  Bool, true, false, not, ◌&&◌, Option, none, some, List, [], ◌∷◌, ◌++◌, Str, seq, elem, keep,
  is_empty, Outcome, ok, err, if◌then◌else◌,
}
use swarmcli_cd.Application.{Spec, View, SyncState, sync_unknown, synced, out_of_sync}
use swarmcli_cd.AppSet.Diff.{spec_names, diff}

-- What the loop drives: the reconciler, the credentials, the pruner and the sweeper of caches, over
-- one state of the world. `reclaim` and the two questions of the pruner are absent in a deployment
-- that has not asked for them.
pub record World : Type 1 where
  pub State : Type 0
  pub Error : Type 0
  pub Resolver : Type 0
  pub views : State → List View
  pub remove : Str → State → Option Error × State
  pub replace : Spec → State → Option Error × State
  pub add : Spec → State → Option Error × State
  pub set_registry_auth : Str → Resolver → State → State
  pub draining : State → List Str × State
  pub credentials : Spec → Outcome Error Resolver
  pub has_pruner : Bool
  pub departing : List Str → List Str → State → Outcome Error (List Str) × State
  pub departed : List Str → List Str → State → (List Str × Option Error) × State
  pub has_reclaimer : Bool
  pub reclaim : List Str → State → Option Error × State
  -- `errors.Is(err, context.Canceled)`
  pub is_cancelled : Error → Bool
  pub deep_equal : Spec → Spec → Bool

unfoldable pub without : List Str → Str → List Str
without names name = keep (λ n. not (seq n name)) names

-- `if !slices.Contains(xs, x) { xs = append(xs, x) }`
unfoldable pub append_new : List Str → Str → List Str
append_new xs x = if elem x xs then xs else xs ++ (x ∷ [])

abbrev is_unknown : SyncState → Bool
is_unknown sync_unknown = true
is_unknown _ = false

-- The applications that have not completed a plan.
unfoldable pub unreconciled : List View → List Str
unreconciled [] = []
unreconciled (v ∷ vs) =
    let rest = unreconciled vs in if is_unknown v.sync then v.spec.name ∷ rest else rest

-- The two loops of `declared`: every release once, in the reconciler's order.
unfoldable pub declare_releases : List Str → List Str → List Str
unfolding append_new
declare_releases out [] = out
declare_releases out (r ∷ rs) = declare_releases (append_new out r) rs

unfoldable pub declare_views : List Str → List View → List Str
unfolding declare_releases
declare_views out [] = out
declare_views out (v ∷ vs) = declare_views (declare_releases out v.releases) vs

unfoldable pub declared : List View → List Str
unfolding declare_views
declared views = declare_views [] views

abbrev pub view_names : List View → List Str
view_names [] = []
view_names (v ∷ vs) = v.spec.name ∷ view_names vs

module _ (w : World) where
  open w use {
    State, Error, Resolver, views, remove, replace, add, set_registry_auth, draining, credentials,
    has_pruner, departing, departed, has_reclaimer, reclaim, is_cancelled, deep_equal,
  }

  -- The wrappers of the code, a constructor for each text.
  pub data Failure : Type 0 where
    loading credential_of reclaiming pruning : Error → Failure
    removing replacing adding : Str → Error → Failure

  -- `Loop`, less what is fixed once it is built; `last_err` holds the errors that were joined.
  pub record Loop : Type 0 where
    pub world : State
    pub last_err : List Failure
    pub stale : Bool
    pub orphaned : List Str
    pub pruned : List Str
    pub prune_held_by : List Str
    pub empty_before : Bool

  unfoldable pub orphan : Str → Loop → Loop
  orphan name l = record l { orphaned = append_new l.orphaned name }

  unfoldable pub adopt : Str → Loop → Loop
  adopt name l = record l { orphaned = without l.orphaned name; pruned = without l.pruned name }

  unfoldable pub record_pruned : List Str → Loop → Loop
  record_pruned [] l = l
  record_pruned (n ∷ ns) l =
      record_pruned ns
        (record l { orphaned = without l.orphaned n; pruned = append_new l.pruned n })

  unfoldable pub record_prune_held : List Str → Loop → Loop
  record_prune_held names l = record l { prune_held_by = names }

  -- `credential`, and the call behind it only if that returned no error.
  unfoldable pub credential : Spec → State → Outcome Error State
  credential spec s = elim (credentials spec) [
    | err e ↦ err e
    | ok r ↦ ok (set_registry_auth spec.name r s)
  ]

  -- The three loops of `apply`, on the errors so far.
  unfoldable pub apply_removals : List Str → List Failure → Loop → List Failure × Loop
  apply_removals [] errs l = (errs, l)
  apply_removals (n ∷ ns) errs l =
      let (e, s) = remove n l.world in
      elim e [
        | some x ↦ apply_removals ns (errs ++ (removing n x ∷ [])) (record l { world = s })
        | none ↦ apply_removals ns errs (orphan n (record l { world = s }))
      ]

  unfoldable pub apply_replacement : Spec → Loop → Option Failure × Loop
  apply_replacement spec l = elim (credential spec l.world) [
    | err x ↦ (some (credential_of x), l)
    | ok s ↦
        let (e, s1) = replace spec s in
        elim e [
          | some x ↦ (some (replacing spec.name x), record l { world = s1 })
          | none ↦ (none, record l { world = s1 })
        ]
  ]

  unfoldable pub apply_addition : Spec → Loop → Option Failure × Loop
  apply_addition spec l = elim (credential spec l.world) [
    | err x ↦ (some (credential_of x), l)
    | ok s ↦
        let (e, s1) = add spec s in
        elim e [
          | some x ↦ (some (adding spec.name x), record l { world = s1 })
          | none ↦ (none, adopt spec.name (record l { world = s1 }))
        ]
  ]

  abbrev pub collect : List Failure → Option Failure → List Failure
  collect errs none = errs
  collect errs (some e) = errs ++ (e ∷ [])

  unfoldable pub apply_replacements : List Spec → List Failure → Loop → List Failure × Loop
  apply_replacements [] errs l = (errs, l)
  apply_replacements (spec ∷ rest) errs l =
      let (e, l1) = apply_replacement spec l in apply_replacements rest (collect errs e) l1

  unfoldable pub apply_additions : List Spec → List Failure → Loop → List Failure × Loop
  apply_additions [] errs l = (errs, l)
  apply_additions (spec ∷ rest) errs l =
      let (e, l1) = apply_addition spec l in apply_additions rest (collect errs e) l1

  unfoldable pub apply : List Spec → Loop → List Failure × Loop
  apply desired l =
      let c = diff deep_equal (views l.world) desired in
      let (errs1, l1) = apply_removals c.remove [] l in
      let (errs2, l2) = apply_replacements c.replace errs1 l1 in apply_additions c.add errs2 l2

  -- `pruneDeparted`: the four ways in which it holds or sweeps.
  unfoldable pub sweep : List Spec → List View → Loop → List Failure × Loop
  sweep desired vs l =
      let ((names, e), s) = departed (spec_names desired) (declared vs) l.world in
      (
        elim e [ none ↦ [] | some x ↦ pruning x ∷ [] ],
        record_pruned names (record_prune_held [] (record l { world = s })),
      )

  unfoldable pub confirm_empty : List Spec → List View → Loop → List Failure × Loop
  confirm_empty desired vs l =
      let (r, s) = departing (spec_names desired) (declared vs) l.world in
      elim r [
        | err x ↦ (pruning x ∷ [], record l { world = s })
        | ok names ↦ ([], record_prune_held names (record l { world = s }))
      ]

  unfoldable pub prune_departed : List Spec → Loop → List Failure × Loop
  prune_departed desired l0 =
      if not has_pruner
      then ([], l0)
      else (let confirmed = l0.empty_before in
          let l = record l0 { empty_before = is_empty desired } in
          let vs = views l.world in
          if not (is_empty (unreconciled vs))
          then ([], record_prune_held (unreconciled vs) l)
          else (let (held, s) = draining l.world in
              let l1 = record l { world = s } in
              if not (is_empty held)
              then ([], record_prune_held held l1)
              else if is_empty desired && not confirmed
              then confirm_empty desired vs l1
              else sweep desired vs l1))

  unfoldable pub reclaim_departed : Loop → List Failure × Loop
  reclaim_departed l =
      if not has_reclaimer
      then ([], l)
      else (let (e, s) = reclaim (view_names (views l.world)) l.world in
          (elim e [ none ↦ [] | some x ↦ reclaiming x ∷ [] ], record l { world = s }))

  abbrev pub cause : Failure → Error
  cause (loading e) = e
  cause (credential_of e) = e
  cause (reclaiming e) = e
  cause (pruning e) = e
  cause (removing n e) = e
  cause (replacing n e) = e
  cause (adding n e) = e

  -- `errors.Is(err, context.Canceled)` of the joined errors.
  abbrev pub any_cancelled : List Failure → Bool
  any_cancelled [] = false
  any_cancelled (f ∷ fs) = if is_cancelled (cause f) then true else any_cancelled fs

  -- `record`: what was cancelled leaves the last outcome as it was.
  unfoldable pub record_outcome : List Failure → Bool → Loop → Loop
  record_outcome errs stale l =
      if any_cancelled errs
      then record l { stale = stale }
      else record l { stale = stale; last_err = errs }

  -- One pass, on what the loader returned; `has_current` is whether a set was ever loaded. A failed
  -- load changes nothing that runs.
  unfoldable pub once : Outcome Error (List Spec) → Bool → Loop → List Failure × Loop
  once (err e) has_current l = (loading e ∷ [], record_outcome (loading e ∷ []) has_current l)
  once (ok desired) has_current l =
      let (errs, l1) = apply desired l in
      let (errs2, l2) = if is_empty errs then prune_departed desired l1 else (errs, l1) in
      let (errs3, l3) = reclaim_departed l2 in
      (errs2 ++ errs3, record_outcome (errs2 ++ errs3) false l3)
