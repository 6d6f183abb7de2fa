-- ===== src/AppSet/Loop/Guards.antt =====
-- When the sweep may run: appset/loop.go, pruneDeparted and Once.
use swarmcli_cd.Base.{
  ◌≡◌, ◌≢◌, ◌↔◌, ◌⊎◌, inl, inr, refl, subst, ◌∙◌, Bool, true, false, List, [], ◌∷◌, ◌++◌, Str,
  arith, Option-cases, Bool-cases, Outcome, ok, err, In, elem, seq_iff, is_empty, All, not,
  if◌then◌else◌,
}
use swarmcli_cd.Application.{Spec, View, sync_unknown}
use swarmcli_cd.AppSet.Diff.{spec_names, diff}
use swarmcli_cd.AppSet.Loop.{
  World, Failure, Loop, without, append_new, unreconciled, declared, orphan, adopt, record_pruned,
  record_prune_held, apply_removals, apply_replacement, apply_addition, apply_replacements,
  apply_additions, apply, sweep, confirm_empty, prune_departed, reclaim_departed, record_outcome,
  once, collect,
}

In-append_new : (n x : Str) (xs : List Str) → In n (append_new xs x) → In n xs ⊎ (n ≡ x)
unfolding append_new
In-append_new n x xs i = elim (Bool-cases (elem x xs)) [
  | inl e ↦ inl (rw e at i)
  | inr e ↦ snoc xs (rw e at i)
]
  where
    snoc : (ys : List Str) → In n (ys ++ (x ∷ [])) → In n ys ⊎ (n ≡ x)
    snoc [] j = ground arith
    snoc (y ∷ ys) (inl e) = inl (inl e)
    snoc (y ∷ ys) (inr j) = elim (snoc ys j) [ inl k ↦ inl (inr k) | inr e ↦ inr e ]

In-without : (n x : Str) (xs : List Str) → In n (without xs x) ↔ (In n xs × (n ≢ x))
unfolding without
In-without n x [] = ground arith
In-without n x (y ∷ ys) = ground (arith, seq_iff y x, In-without n x ys)

-- Every application has completed a plan.
abbrev pub AllPlanned : List View → Type 0
AllPlanned vs = All (λ (v : View). v.sync ≢ sync_unknown) vs

unreconciled_iff : (vs : List View) → (unreconciled vs ≡ []) ↔ AllPlanned vs
unfolding unreconciled
unreconciled_iff [] = ground arith
unreconciled_iff (v ∷ vs) = ground (arith, unreconciled_iff vs)

pub is_empty_of : {A : Type 0} (xs : List A) → is_empty xs ≡ true → xs ≡ []
is_empty_of [] h = refl
is_empty_of (x ∷ xs) h = ground arith

is_empty_nil : {A : Type 0} (xs : List A) → not (is_empty xs) ≡ false → xs ≡ []
is_empty_nil [] h = refl
is_empty_nil (x ∷ xs) h = ground arith

module _ (w : World) where
  record_pruned-In :
      (n : Str) (names : List Str) (l : Loop w)
      → In n (record_pruned w names l).pruned
      → In n l.pruned ⊎ In n names
  unfolding record_pruned
  record_pruned-In n [] l i = inl i
  record_pruned-In n (x ∷ xs) l i =
      elim (record_pruned-In n xs
        (record l { orphaned = without l.orphaned x; pruned = append_new l.pruned x }) i) [
          | inr j ↦ inr (inr j)
          | inl j ↦ elim (In-append_new n x l.pruned j) [ inl k ↦ inl k | inr e ↦ inr (inl e) ]
        ]

  -- What has to hold for a sweep, at the state of the loop that `pruneDeparted` begins with.
  abbrev pub MaySweep : List Spec → Loop w → Type 0
  MaySweep desired l =
      (w.has_pruner ≡ true)
      × AllPlanned (w.views l.world)
      × ((w.draining l.world).0 ≡ [])
      × ((desired ≢ []) ⊎ (l.empty_before ≡ true))

  -- The names that the pruner reports, asked with the desired names and the declared releases.
  abbrev pub reported : List Spec → Loop w → List Str
  reported desired l =
      (w.departed (spec_names desired) (declared (w.views l.world)) (w.draining l.world).1).0.0

  prune_departed-pruned :
      (desired : List Spec) (l : Loop w) (n : Str)
      → In n (prune_departed w desired l).1.pruned
      → In n l.pruned ⊎ (MaySweep desired l × In n (reported desired l))
  unfolding prune_departed confirm_empty sweep record_prune_held
  prune_departed-pruned desired l n i =
      let s1 = (w.draining l.world).1 in
      let s2 = (w.departed (spec_names desired) (declared (w.views l.world)) s1).1 in
      let l1 : Loop w = record l {
        empty_before = is_empty desired;
        world = s2;
        prune_held_by = [];
      } in
      ground
        (arith, i, unreconciled_iff (w.views l.world), record_pruned-In n (reported desired l) l1)

  apply_removals-pruned :
      (ns : List Str) (errs : List (Failure w)) (l : Loop w)
      → (apply_removals w ns errs l).1.pruned ≡ l.pruned
  unfolding apply_removals orphan
  apply_removals-pruned [] errs l = refl
  apply_removals-pruned (n ∷ ns) errs l =
      let l1 : Loop w = record l { world = (w.remove n l.world).1 } in
      elim (Option-cases (w.remove n l.world).0) [
        | inl e ↦ ground (arith, apply_removals-pruned ns errs (orphan w n l1))
        | inr (x, e) ↦
            ground (arith, apply_removals-pruned ns (errs ++ (Failure.removing n x ∷ [])) l1)
      ]

  apply_replacement-pruned : (x : Spec) (l : Loop w) → (apply_replacement w x l).1.pruned ≡ l.pruned
  unfolding apply_replacement
  apply_replacement-pruned x l = ground arith

  apply_replacements-pruned :
      (xs : List Spec) (errs : List (Failure w)) (l : Loop w)
      → (apply_replacements w xs errs l).1.pruned ≡ l.pruned
  unfolding apply_replacements
  apply_replacements-pruned [] errs l = refl
  apply_replacements-pruned (x ∷ xs) errs l =
      let p = apply_replacement w x l in
      apply_replacements-pruned xs (collect w errs p.0) p.1 ∙ apply_replacement-pruned x l

  apply_addition-pruned :
      (x : Spec) (l : Loop w) (n : Str) → In n (apply_addition w x l).1.pruned → In n l.pruned
  unfolding apply_addition adopt
  apply_addition-pruned x l n i = ground (arith, In-without n x.name l.pruned)

  apply_additions-pruned :
      (xs : List Spec) (errs : List (Failure w)) (l : Loop w) (n : Str)
      → In n (apply_additions w xs errs l).1.pruned
      → In n l.pruned
  unfolding apply_additions
  apply_additions-pruned [] errs l n i = i
  apply_additions-pruned (x ∷ xs) errs l n i =
      let p = apply_addition w x l in
      apply_addition-pruned x l n (apply_additions-pruned xs (collect w errs p.0) p.1 n i)

  apply-pruned :
      (desired : List Spec) (l : Loop w) (n : Str)
      → In n (apply w desired l).1.pruned
      → In n l.pruned
  unfolding apply
  apply-pruned desired l n i =
      let c = diff w.deep_equal (w.views l.world) desired in
      let p1 = apply_removals w c.remove [] l in
      let p2 = apply_replacements w c.replace p1.0 p1.1 in
      subst (λ ps. In n ps)
        (apply_replacements-pruned c.replace p1.0 p1.1 ∙ apply_removals-pruned c.remove [] l)
        (apply_additions-pruned c.add p2.0 p2.1 n i)

  record_outcome-pruned :
      (errs : List (Failure w)) (stale : Bool) (l : Loop w)
      → (record_outcome w errs stale l).pruned ≡ l.pruned
  unfolding record_outcome
  record_outcome-pruned errs stale l = ground arith

  reclaim_departed-pruned : (l : Loop w) → (reclaim_departed w l).1.pruned ≡ l.pruned
  unfolding reclaim_departed
  reclaim_departed-pruned l = ground arith

  -- One pass: a name is added to the pruned ones only behind all the guards, at the flag that the
  -- pass found.
  pub once-Guarded :
      (loaded : Outcome w.Error (List Spec)) (has_current : Bool) (l : Loop w) (n : Str)
      → In n (once w loaded has_current l).1.pruned
      → In n l.pruned
        ⊎ ((desired : List Spec) × (loaded ≡ ok desired)
            × ((apply w desired l).0 ≡ [])
            × MaySweep desired (apply w desired l).1
            × In n (reported desired (apply w desired l).1))
  unfolding once
  once-Guarded (err e) has_current l n i =
      inl (subst (λ ps. In n ps) (record_outcome-pruned (Failure.loading e ∷ []) has_current l) i)
  once-Guarded (ok desired) has_current l n i =
      let p = apply w desired l in
      let q = if is_empty p.0 then prune_departed w desired p.1 else p in
      let r = reclaim_departed w q.1 in
      let i1 : In n q.1.pruned =
        subst (λ ps. In n ps)
          (record_outcome-pruned (q.0 ++ r.0) false r.1 ∙ reclaim_departed-pruned q.1) i in
      elim (Bool-cases (is_empty p.0)) [
        | inr e ↦ inl (apply-pruned desired l n (rw e at i1))
        | inl e ↦ elim (prune_departed-pruned desired p.1 n (rw e at i1)) [
          | inl k ↦ inl (apply-pruned desired l n k)
          | inr (m, k) ↦ inr (desired, refl, is_empty_of p.0 e, m, k)
        ]
      ]
