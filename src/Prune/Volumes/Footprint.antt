-- ===== src/Prune/Volumes/Footprint.antt =====
-- Which events a purge makes, whatever answers it.
use swarmcli_cd.Base.{
  ℕ, zero, suc, ◌≡◌, refl, inl, inr, List, [], ◌∷◌, ◌++◌, arith, Str, has_prefix_iff, Bool-cases,
  Outcome-cases, ◌+◌, All,
}
use swarmcli_cd.Owner.{underscore}
use swarmcli_cd.Prune.Calls.{
  Node, Host, own, at, Event, resolve_swarm, list_releases, list_nodes, count_nodes, wait,
  remove_stack, uninstall, reach_node, list_volumes, remove_volume, remove_stack_volume,
  warn_named_outside, warn_deleted_here, warn_this_node_only, warn_deleted_some,
  warn_deleted_everywhere, warn_not_all_nodes, warn_own_stack, warn_pruned, warn_networks_left,
  listing_node_volumes, listing_volumes, Trace, Error, Swarm,
}
use swarmcli_cd.Prune.Volumes.{
  volume_settle_timeout, volume_label, outside_release, within_release, warn_outside, removal_call,
  settle, remove_one, remove_names, purge_host, purge_nodes, report_nodes, purge_every_node,
  report_here, purge_this_node, purge_volumes,
}

-- The name is the release's, an underscore and more.
abbrev pub Within : Str → Str → Type 0
Within release name = (rest : Str) × (name ≡ release ++ (underscore ∷ rest))

-- The events of a purge: it takes no stack down, deletes no record, and removes no volume named
-- outside the release.
abbrev pub PurgeEvent : Str → Event → Type 0
PurgeEvent release resolve_swarm = ⊥
PurgeEvent release list_releases = ⊥
PurgeEvent release (remove_stack r) = ⊥
PurgeEvent release (uninstall r) = ⊥
PurgeEvent release (warn_own_stack a r) = ⊥
PurgeEvent release (warn_pruned a r) = ⊥
PurgeEvent release (warn_networks_left a r ns) = ⊥
PurgeEvent release (remove_volume h name) = Within release name
PurgeEvent release (remove_stack_volume h r name) = (r ≡ release) × Within release name
PurgeEvent release list_nodes = Unit
PurgeEvent release count_nodes = Unit
PurgeEvent release wait = Unit
PurgeEvent release (reach_node n) = Unit
PurgeEvent release (list_volumes h r) = r ≡ release
PurgeEvent release (warn_named_outside r ns) = Unit
PurgeEvent release (warn_deleted_here r ns) = Unit
PurgeEvent release (warn_this_node_only r ns) = Unit
PurgeEvent release (warn_deleted_some r ns) = Unit
PurgeEvent release (warn_deleted_everywhere r nodes ns) = Unit
PurgeEvent release (warn_not_all_nodes r nodes ns) = Unit

Within-within_release :
    (release : Str) (names : List Str) → All (Within release) (within_release release names)
unfolding within_release
Within-within_release release [] = tt
Within-within_release release (n ∷ ns) =
    ground (arith, has_prefix_iff n release underscore, Within-within_release release ns)

module _ (s : Swarm) (release : Str) (Q : Trace → Type 0)
    (grow : (e : Event) (tr : Trace) → PurgeEvent release e → Q tr → Q (e ∷ tr)) where
  removal_call-PurgeEvent :
      (h : Host) (name : Str)
      → Within release name
      → PurgeEvent release (removal_call s h release name)
  unfolding removal_call
  removal_call-PurgeEvent h name w = elim (Bool-cases (s.has_stack_remover h)) [
    | inl e ↦ rw e (refl, w)
    | inr e ↦ rw e w
  ]

  warn_outside-keeps :
      (names : List Str) (t : Trace)
      → Q t
      → Q (warn_named_outside release (outside_release release names) ∷ t)
      → Q (warn_outside release names t)
  unfolding warn_outside
  warn_outside-keeps names t q q' = ground arith

  settle-keeps :
      (rounds deadline : ℕ) (call : Event) (tr : Trace)
      → PurgeEvent release call
      → Q tr
      → Q (settle s rounds deadline call tr).1
  unfolding settle
  settle-keeps zero deadline call tr p q = q
  settle-keeps (suc rounds) deadline call tr p q = ground (
    arith,
    grow call tr p q,
    grow wait (call ∷ tr) tt (grow call tr p q),
    settle-keeps rounds deadline call (wait ∷ call ∷ tr) p
        (grow wait (call ∷ tr) tt (grow call tr p q)),
  )

  remove_one-keeps :
      (h : Host) (name : Str) (tr : Trace)
      → Within release name
      → Q tr
      → Q (remove_one s h release name tr).1
  unfolding remove_one
  remove_one-keeps h name tr w q =
      settle-keeps 17 (s.now tr + volume_settle_timeout) (removal_call s h release name) tr
        (removal_call-PurgeEvent h name w) q

  remove_names-keeps :
      (h : Host) (names deleted : List Str) (tr : Trace)
      → All (Within release) names
      → Q tr
      → Q (remove_names s h release names deleted tr).1
  unfolding remove_names
  remove_names-keeps h [] deleted tr w q = q
  remove_names-keeps h (n ∷ ns) deleted tr w q =
      let tr1 = (remove_one s h release n tr).1 in
      let q1 : Q tr1 = remove_one-keeps h n tr w.0 q in
      ground (
        arith,
        q1,
        remove_names-keeps h ns (deleted ++ (volume_label h n ∷ [])) tr1 w.1 q1,
        remove_names-keeps h ns deleted tr1 w.1 q1,
      )

  purge_host-keeps :
      (wrap : Error → Error) (h : Host) (deleted : List Str) (tr : Trace)
      → Q tr
      → Q (purge_host s wrap h release deleted tr).1
  unfolding purge_host
  purge_host-keeps wrap h deleted tr q =
      let q1 : Q (list_volumes h release ∷ tr) = grow (list_volumes h release) tr refl q in
      elim (Outcome-cases (s.volumes (list_volumes h release ∷ tr))) [
        | inl (names, e) ↦ ground (
          arith,
          remove_names-keeps h (within_release release names) deleted
              (warn_outside release names (list_volumes h release ∷ tr))
              (Within-within_release release names) (warned names (list_volumes h release ∷ tr) q1),
        )
        | inr (x, e) ↦ ground (arith, q1)
      ]
    where
      warned : (names : List Str) (t : Trace) → Q t → Q (warn_outside release names t)
      warned names t k =
          warn_outside-keeps names t k
            (grow (warn_named_outside release (outside_release release names)) t tt k)

  purge_nodes-keeps :
      (ns : List Node) (deleted : List Str) (tr : Trace)
      → Q tr
      → Q (purge_nodes s release ns deleted tr).1
  unfolding purge_nodes
  purge_nodes-keeps [] deleted tr q = q
  purge_nodes-keeps (n ∷ ns) deleted tr q =
      let tr1 = reach_node n ∷ tr in
      let q1 : Q tr1 = grow (reach_node n) tr tt q in
      let p = purge_host s (listing_node_volumes n) (at n) release deleted tr1 in
      let q2 : Q p.1 = purge_host-keeps (listing_node_volumes n) (at n) deleted tr1 q1 in
      elim (Outcome-cases p.0) [
        | inl (d, o) ↦ ground (arith, q1, q2, purge_nodes-keeps ns d p.1 q2)
        | inr (x, o) ↦ ground (arith, q1, q2)
      ]

  report_nodes-keeps :
      (ns : List Node) (deleted : List Str) (tr : Trace)
      → Q tr
      → Q (report_nodes s release ns deleted tr)
  unfolding report_nodes
  report_nodes-keeps ns deleted tr q =
      let q1 : Q (count_nodes ∷ tr) = grow count_nodes tr tt q in
      ground (
        arith,
        q1,
        grow (warn_deleted_everywhere release ns deleted) (count_nodes ∷ tr) tt q1,
        grow (warn_not_all_nodes release ns deleted) (count_nodes ∷ tr) tt q1,
      )

  report_here-keeps :
      (removed : List Str) (tr : Trace) → Q tr → Q (report_here s release removed tr)
  unfolding report_here
  report_here-keeps removed tr q =
      let q1 : Q (count_nodes ∷ tr) = grow count_nodes tr tt q in
      ground (
        arith,
        q1,
        grow (warn_deleted_here release removed) (count_nodes ∷ tr) tt q1,
        grow (warn_this_node_only release removed) (count_nodes ∷ tr) tt q1,
      )

  purge_every_node-keeps : (tr : Trace) → Q tr → Q (purge_every_node s release tr).1
  unfolding purge_every_node
  purge_every_node-keeps tr q =
      let q1 : Q (list_nodes ∷ tr) = grow list_nodes tr tt q in
      elim (Outcome-cases (s.nodes (list_nodes ∷ tr))) [
        | inr (x, e) ↦ ground (arith, q1)
        | inl (ns, e) ↦
            let p = purge_nodes s release ns [] (list_nodes ∷ tr) in
            let q2 : Q p.1 = purge_nodes-keeps ns [] (list_nodes ∷ tr) q1 in
            elim (Outcome-cases p.0) [
              | inl (d, o) ↦ ground (arith, q1, q2, report_nodes-keeps ns d p.1 q2)
              | inr (x, o) ↦ ground (arith, q1, q2, grow (warn_deleted_some release x.1) p.1 tt q2)
            ]
      ]

  purge_this_node-keeps : (tr : Trace) → Q tr → Q (purge_this_node s release tr).1
  unfolding purge_this_node
  purge_this_node-keeps tr q =
      let p = purge_host s listing_volumes own release [] tr in
      let q1 : Q p.1 = purge_host-keeps listing_volumes own [] tr q in
      elim (Outcome-cases p.0) [
        | inl (d, o) ↦ ground (arith, q1, report_here-keeps d p.1 q1)
        | inr (x, o) ↦ ground (arith, q1)
      ]

  -- What every event of a purge keeps, a purge keeps.
  pub purge_volumes-keeps : (tr : Trace) → Q tr → Q (purge_volumes s release tr).1
  unfolding purge_volumes
  purge_volumes-keeps tr q = ground (arith, purge_every_node-keeps tr q, purge_this_node-keeps tr q)
