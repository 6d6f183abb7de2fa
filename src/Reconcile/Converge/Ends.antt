-- ===== src/Reconcile/Converge/Ends.antt =====
-- That the waits of converge, in reconcile/reconcile.go, end.
use swarmcli_cd.Base.{
  ℕ, zero, suc, ◌+◌, ◌*◌, ◌/◌, ◌≤◌, ◌≡◌, ◌≢◌, refl, false, some, List, [], ◌∷◌, ◌++◌, arith, Str,
  Outcome, ok, err, Bool-cases, inl, inr, map, is_empty,
}
use swarmcli_cd.Health.{Phase, converged, wedged, other_phase}
use swarmcli_cd.Prune.Rule.{sort_names}
use swarmcli_cd.Reconcile.Converge.{
  Answers, Event, read, clock, wait, Trace, ConvergeError, unfinished, Scopes, scope_of, scoped_to,
  judged, read_round, after_round, poll, timeout_or_default, await_settled, Result,
  converge_poll_interval,
}

-- The clock never goes back, and a wait that its timer ended took its interval.
pub record IsTimed (w : Answers) : Type 0 where
  pub forward : (e : Event) (tr : Trace) → w.now tr ≤ w.now (e ∷ tr)
  pub waited :
      (tr : Trace)
      → w.is_cancelled (wait ∷ tr) ≡ false
      → w.now tr + converge_poll_interval ≤ w.now (wait ∷ tr)

module _ (w : Answers) (timed : IsTimed w) where
  -- A round that took its time, and did not end for want of fuel.
  abbrev Later : Trace → Outcome ConvergeError (List Str) × Trace → Type 0
  Later tr o = (w.now tr ≤ w.now o.1) × (o.0 ≢ err unfinished)

  judged-Later :
      (release : Str) (next : List Str → Trace → Outcome ConvergeError (List Str) × Trace)
      (v : Phase × Str) (pending : List Str) (tr0 tr : Trace)
      → w.now tr0 ≤ w.now tr
      → ((p : List Str) → Later tr0 (next p tr))
      → Later tr0 (judged w release next v pending tr)
  judged-Later release next (wedged, reason) pending tr0 tr le h = (le, λ e. ground arith)
  judged-Later release next (converged, reason) pending tr0 tr le h = h pending
  judged-Later release next (other_phase, reason) pending tr0 tr le h =
      h (pending ++ (release ∷ []))

  read_round-Later :
      (scopes : Scopes) (rs pending : List Str) (tr0 tr : Trace)
      → w.now tr0 ≤ w.now tr
      → Later tr0 (read_round w scopes rs pending tr)
  unfolding read_round
  read_round-Later scopes [] pending tr0 tr le = (le, λ e. ground arith)
  read_round-Later scopes (r ∷ rs) pending tr0 tr le =
      judged-Later r (read_round w scopes rs)
        (w.rollup (scoped_to w (w.states (read r ∷ tr)) (scope_of r scopes))) pending tr0
        (read r ∷ tr) (ground (arith, timed.forward (read r) tr))
        λ p.
          read_round-Later scopes rs p tr0 (read r ∷ tr) (ground (arith, timed.forward (read r) tr))

  after_round-ends :
      (next : Trace → Result) (n deadline : ℕ) (tr0 : Trace)
      (o : Outcome ConvergeError (List Str) × Trace)
      → Later tr0 o
      → deadline ≤ w.now tr0 + n * converge_poll_interval
      → ((m : ℕ) (tr : Trace)
          → suc m ≡ n
          → deadline ≤ w.now tr + m * converge_poll_interval
          → (next tr).0 ≢ some unfinished)
      → (after_round w next deadline o).0 ≢ some unfinished
  after_round-ends next n deadline tr0 (err e, tr) l le h = ground (arith, l.1)
  after_round-ends next n deadline tr0 (ok [], tr) l le h = ground arith
  after_round-ends next zero deadline tr0 (ok (p ∷ ps), tr) l le h =
      ground (arith, timed.forward clock tr, l.0)
  after_round-ends next (suc m) deadline tr0 (ok (p ∷ ps), tr) l le h = ground (
    arith,
    timed.forward clock tr,
    l.0,
    timed.waited (clock ∷ tr),
    h m (wait ∷ (clock ∷ tr)) refl,
  )

  poll-ends :
      (n deadline : ℕ) (releases : List Str) (scopes : Scopes) (tr : Trace)
      → deadline ≤ w.now tr + n * converge_poll_interval
      → (poll w (suc n) deadline releases scopes tr).0 ≢ some unfinished
  unfolding poll
  poll-ends zero deadline releases scopes tr le =
      after_round-ends (poll w zero deadline releases scopes) zero deadline tr
        (read_round w scopes releases [] tr)
        (read_round-Later scopes releases [] tr tr (ground arith)) le (λ m t e q. ground arith)
  poll-ends (suc n) deadline releases scopes tr le =
      after_round-ends (poll w (suc n) deadline releases scopes) (suc n) deadline tr
        (read_round w scopes releases [] tr)
        (read_round-Later scopes releases [] tr tr (ground arith)) le
        (λ m t e q. poll-ends n deadline releases scopes t (ground arith))

  -- With a clock that goes forward and waits that take their interval, the wait for corrected
  -- releases ends by one of the loop's own returns: every release converged, one wedged, the
  -- deadline passed, or the context was cancelled. The rounds that are allowed for never run out.
  pub await_settled_ends :
      (timeout : ℕ) (scopes : Scopes) (tr : Trace)
      → (await_settled w timeout scopes tr).0 ≢ some unfinished
  unfolding await_settled
  await_settled_ends timeout scopes tr = elim (Bool-cases (is_empty scopes)) [
    | inl e ↦ ground arith
    | inr e ↦ ground (
      arith,
      poll-ends (suc (timeout_or_default w timeout / converge_poll_interval))
          (w.now (clock ∷ tr) + timeout_or_default w timeout) (sort_names (map (λ kv. kv.0) scopes))
          scopes (clock ∷ tr) (omega arith),
    )
  ]
