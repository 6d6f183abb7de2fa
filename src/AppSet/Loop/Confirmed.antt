-- ===== src/AppSet/Loop/Confirmed.antt =====
-- What the flag `emptyBefore` of appset/loop.go stands for over a history of passes, and so when a
-- sweep may run.
use swarmcli_cd.Base.{
  ◌≡◌, ◌≢◌, ◌⊎◌, inl, inr, refl, sym, subst, ◌∙◌, Bool, true, false, Option-cases, List, [], ◌∷◌,
  ◌++◌, Str, arith, Bool-cases, Outcome, ok, err, In, is_empty, if◌then◌else◌, ap,
}
use swarmcli_cd.Application.{Spec}
use swarmcli_cd.AppSet.Diff.{diff, spec_names}
use swarmcli_cd.AppSet.Loop.{
  World, Failure, Loop, orphan, adopt, record_pruned, record_prune_held, apply_removals,
  apply_replacement, apply_addition, apply_replacements, apply_additions, apply, sweep,
  confirm_empty, prune_departed, reclaim_departed, record_outcome, once, collect, declared,
}
use swarmcli_cd.AppSet.Loop.Guards.{AllPlanned, reported, once-Guarded, is_empty_of}

module _ (w : World) where
  -- A pass: what the world has become when it begins, what the loader returns, and whether a set was
  -- ever loaded.
  pub record Round : Type 0 where
    pub world : w.State
    pub loaded : Outcome w.Error (List Spec)
    pub has_current : Bool

  -- A loop that has made no pass.
  abbrev pub new : w.State → Loop w
  new s = record {
    world = s;
    last_err = [];
    stale = false;
    orphaned = [];
    pruned = [];
    prune_held_by = [];
    empty_before = false;
  }

  -- The loop as a pass finds it.
  abbrev pub begun : Round → Loop w → Loop w
  begun r l = record l { world = r.world }

  -- After a history of passes, the newest first.
  unfoldable pub history : w.State → List Round → Loop w
  history s [] = new s
  history s (r ∷ rs) = (once w r.loaded r.has_current (begun r (history s rs))).1

  -- The set was loaded, and every step towards it succeeded.
  abbrev pub Reached : Outcome w.Error (List Spec) → Loop w → List Spec → Type 0
  Reached loaded l desired = (loaded ≡ ok desired) × ((apply w desired l).0 ≡ [])

  abbrev pub Settled : Round → Loop w → List Spec → Type 0
  Settled r l = Reached r.loaded (begun r l)

  -- Of the passes that came as far as the sweep, the last one had an empty set.
  abbrev pub LastEmpty : w.State → List Round → Type 0
  LastEmpty s [] = ⊥
  LastEmpty s (r ∷ rs) =
      Settled r (history s rs) []
      ⊎ ((¬ ((desired : List Spec) × Settled r (history s rs) desired)) × LastEmpty s rs)

  record_pruned-empty :
      (names : List Str) (l : Loop w) → (record_pruned w names l).empty_before ≡ l.empty_before
  unfolding record_pruned
  record_pruned-empty [] l = refl
  record_pruned-empty (x ∷ xs) l = record_pruned-empty xs _

  prune_departed-empty :
      (desired : List Spec) (l : Loop w)
      → w.has_pruner ≡ true
      → (prune_departed w desired l).1.empty_before ≡ is_empty desired
  unfolding prune_departed confirm_empty sweep record_prune_held
  prune_departed-empty desired l e =
      let s1 = (w.draining l.world).1 in
      let s2 = (w.departed (spec_names desired) (declared (w.views l.world)) s1).1 in
      let l1 : Loop w = record l {
        empty_before = is_empty desired;
        world = s2;
        prune_held_by = [];
      } in
      ground (arith, record_pruned-empty (reported w desired l) l1)

  apply_removals-empty :
      (ns : List Str) (errs : List (Failure w)) (l : Loop w)
      → (apply_removals w ns errs l).1.empty_before ≡ l.empty_before
  unfolding apply_removals orphan
  apply_removals-empty [] errs l = refl
  apply_removals-empty (n ∷ ns) errs l =
      let l1 : Loop w = record l { world = (w.remove n l.world).1 } in
      elim (Option-cases (w.remove n l.world).0) [
        | inl e ↦ ground (arith, apply_removals-empty ns errs (orphan w n l1))
        | inr (x, e) ↦
            ground (arith, apply_removals-empty ns (errs ++ (Failure.removing n x ∷ [])) l1)
      ]

  apply_replacement-empty :
      (x : Spec) (l : Loop w) → (apply_replacement w x l).1.empty_before ≡ l.empty_before
  unfolding apply_replacement
  apply_replacement-empty x l = ground arith

  apply_replacements-empty :
      (xs : List Spec) (errs : List (Failure w)) (l : Loop w)
      → (apply_replacements w xs errs l).1.empty_before ≡ l.empty_before
  unfolding apply_replacements
  apply_replacements-empty [] errs l = refl
  apply_replacements-empty (x ∷ xs) errs l =
      let p = apply_replacement w x l in
      apply_replacements-empty xs (collect w errs p.0) p.1 ∙ apply_replacement-empty x l

  apply_addition-empty :
      (x : Spec) (l : Loop w) → (apply_addition w x l).1.empty_before ≡ l.empty_before
  unfolding apply_addition adopt
  apply_addition-empty x l = ground arith

  apply_additions-empty :
      (xs : List Spec) (errs : List (Failure w)) (l : Loop w)
      → (apply_additions w xs errs l).1.empty_before ≡ l.empty_before
  unfolding apply_additions
  apply_additions-empty [] errs l = refl
  apply_additions-empty (x ∷ xs) errs l =
      let p = apply_addition w x l in
      apply_additions-empty xs (collect w errs p.0) p.1 ∙ apply_addition-empty x l

  apply-empty :
      (desired : List Spec) (l : Loop w) → (apply w desired l).1.empty_before ≡ l.empty_before
  unfolding apply
  apply-empty desired l =
      let c = diff w.deep_equal (w.views l.world) desired in
      let p1 = apply_removals w c.remove [] l in
      let p2 = apply_replacements w c.replace p1.0 p1.1 in
      apply_additions-empty c.add p2.0 p2.1
      ∙ (apply_replacements-empty c.replace p1.0 p1.1 ∙ apply_removals-empty c.remove [] l)

  record_outcome-empty :
      (errs : List (Failure w)) (stale : Bool) (l : Loop w)
      → (record_outcome w errs stale l).empty_before ≡ l.empty_before
  unfolding record_outcome
  record_outcome-empty errs stale l = ground arith

  reclaim_departed-empty : (l : Loop w) → (reclaim_departed w l).1.empty_before ≡ l.empty_before
  unfolding reclaim_departed
  reclaim_departed-empty l = ground arith

  -- What a pass leaves in the flag: whether its set is empty if it came as far as the sweep, and else
  -- what it found.
  once-empty :
      (loaded : Outcome w.Error (List Spec)) (has_current : Bool) (l : Loop w)
      → w.has_pruner ≡ true
      → (once w loaded has_current l).1.empty_before ≡ true
      → Reached loaded l []
        ⊎ ((¬ ((desired : List Spec) × Reached loaded l desired)) × (l.empty_before ≡ true))
  unfolding once
  once-empty (err x) has_current l p e = inr (
    λ (desired, (q, a)). ground arith,
    sym (record_outcome-empty (Failure.loading x ∷ []) has_current l) ∙ e,
  )
  once-empty (ok desired) has_current l p e =
      let a = apply w desired l in
      let q = if is_empty a.0 then prune_departed w desired a.1 else a in
      let r = reclaim_departed w q.1 in
      let kept : q.1.empty_before ≡ true =
        sym (reclaim_departed-empty q.1)
        ∙ (sym (record_outcome-empty (q.0 ++ r.0) false r.1) ∙ e) in
      elim (Bool-cases (is_empty a.0)) [
        | inl k ↦ inl (
            settled desired (is_empty_of a.0 k)
              (is_empty_of desired (sym (prune_departed-empty desired a.1 p) ∙ (rw k at kept))))
        | inr k ↦ inr (unsettled desired k, sym (apply-empty desired l) ∙ (rw k at kept))
      ]
    where
      settled : (ds : List Spec) → (apply w ds l).0 ≡ [] → ds ≡ [] → Reached (ok ds) l []
      settled ds z q = (ap ok q, subst (λ xs. (apply w xs l).0 ≡ []) q z)

      unsettled :
          (ds : List Spec)
          → is_empty (apply w ds l).0 ≡ false
          → ¬ ((x : List Spec) × Reached (ok ds) l x)
      unsettled ds k (x, (q, z)) =
          let same : x ≡ ds = ground arith in
          let none_failed = subst (λ xs. (apply w xs l).0 ≡ []) same z in ground arith

  history-LastEmpty :
      (s : w.State) (rs : List Round)
      → w.has_pruner ≡ true
      → (history s rs).empty_before ≡ true
      → LastEmpty s rs
  unfolding history
  history-LastEmpty s [] p e = ground arith
  history-LastEmpty s (r ∷ rs) p e =
      elim (once-empty r.loaded r.has_current (begun r (history s rs)) p e) [
        | inl h ↦ inl h
        | inr (n, k) ↦ inr (n, history-LastEmpty s rs p k)
      ]

  -- Over any history of passes from a new loop, whatever happened to the world between them: a pass
  -- adds a name to the pruned ones only if its set loaded, every step of bringing the running set to
  -- it succeeded, and then a pruner is there, every application that runs has completed a plan, none
  -- that left is still syncing, the pruner, asked with that set, reported the name, and the set is not
  -- empty or the last pass before that loaded a set and reached it loaded an empty one too.
  pub once-pruned :
      (s : w.State) (rs : List Round) (r : Round) (n : Str)
      → In n (history s (r ∷ rs)).pruned
      → In n (history s rs).pruned
        ⊎ ((desired : List Spec) × Settled r (history s rs) desired
            × (w.has_pruner ≡ true)
            × AllPlanned (w.views (apply w desired (begun r (history s rs))).1.world)
            × ((w.draining (apply w desired (begun r (history s rs))).1.world).0 ≡ [])
            × ((desired ≢ []) ⊎ LastEmpty s rs)
            × In n (reported w desired (apply w desired (begun r (history s rs))).1))
  unfolding history
  once-pruned s rs r n i =
      elim (once-Guarded w r.loaded r.has_current (begun r (history s rs)) n i) [
        | inl j ↦ inl j
        | inr (desired, q, a, (p, v, d, (inl e)), k) ↦ inr (desired, (q, a), p, v, d, inl e, k)
        | inr (desired, q, a, (p, v, d, (inr e)), k) ↦ inr (
          desired,
          (q, a),
          p,
          v,
          d,
          inr (history-LastEmpty s rs p (sym (apply-empty desired (begun r (history s rs))) ∙ e)),
          k,
        )
      ]
