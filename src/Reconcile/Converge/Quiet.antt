-- ===== src/Reconcile/Converge/Quiet.antt =====
-- What the waits of converge, in reconcile/reconcile.go, leave as it is: they read, look at the clock
-- and wait, and deploy nothing.
use swarmcli_cd.Base.{
  ℕ, zero, suc, Bool, List, [], ◌∷◌, ◌++◌, Str, Outcome, ok, err, Bool-cases, inl, inr, is_empty,
  not, ltb, true, false, if◌then◌else◌,
}
use swarmcli_cd.Health.{Phase, converged, wedged, other_phase}
use swarmcli_cd.Reconcile.Converge.{
  Answers, read, clock, wait, Trace, ConvergeError, Scopes, scope_of, scoped_to, judged, read_round,
  after_round, poll, await_settled, await_converged, Result,
}

-- A property of the trace that these events keep.
pub record IsQuiet (P : Trace → Type 0) : Type 0 where
  pub of_read : (r : Str) (tr : Trace) → P tr → P (read r ∷ tr)
  pub of_clock : (tr : Trace) → P tr → P (clock ∷ tr)
  pub of_wait : (tr : Trace) → P tr → P (wait ∷ tr)

module _ (w : Answers) (P : Trace → Type 0) (quiet : IsQuiet P) where
  judged-keeps :
      (release : Str) (next : List Str → Trace → Outcome ConvergeError (List Str) × Trace)
      (v : Phase × Str) (pending : List Str) (tr : Trace)
      → P tr
      → ((p : List Str) → P (next p tr).1)
      → P (judged w release next v pending tr).1
  judged-keeps release next (wedged, reason) pending tr a h = a
  judged-keeps release next (converged, reason) pending tr a h = h pending
  judged-keeps release next (other_phase, reason) pending tr a h = h (pending ++ (release ∷ []))

  read_round-keeps :
      (scopes : Scopes) (rs pending : List Str) (tr : Trace)
      → P tr
      → P (read_round w scopes rs pending tr).1
  unfolding read_round
  read_round-keeps scopes [] pending tr a = a
  read_round-keeps scopes (r ∷ rs) pending tr a =
      judged-keeps r (read_round w scopes rs)
        (w.rollup (scoped_to w (w.states (read r ∷ tr)) (scope_of r scopes))) pending (read r ∷ tr)
        (quiet.of_read r tr a)
        λ p. read_round-keeps scopes rs p (read r ∷ tr) (quiet.of_read r tr a)

  either-keeps : (c : Bool) (x y : Result) → P x.1 → P y.1 → P (if c then x else y).1
  either-keeps true x y a b = a
  either-keeps false x y a b = b

  after_round-keeps :
      (next : Trace → Result) (deadline : ℕ) (o : Outcome ConvergeError (List Str) × Trace)
      → P o.1
      → ((tr : Trace) → P tr → P (next tr).1)
      → P (after_round w next deadline o).1
  after_round-keeps next deadline (err e, tr) a h = a
  after_round-keeps next deadline (ok [], tr) a h = a
  after_round-keeps next deadline (ok (p ∷ ps), tr) a h =
      let c = quiet.of_clock tr a in
      let d = quiet.of_wait (clock ∷ tr) c in
      either-keeps (not (ltb (w.now (clock ∷ tr)) deadline)) _ _ c
        (either-keeps (w.is_cancelled (wait ∷ (clock ∷ tr))) _ _ d (h (wait ∷ (clock ∷ tr)) d))

  poll-keeps :
      (n deadline : ℕ) (releases : List Str) (scopes : Scopes) (tr : Trace)
      → P tr
      → P (poll w n deadline releases scopes tr).1
  unfolding poll
  poll-keeps zero deadline releases scopes tr a = a
  poll-keeps (suc n) deadline releases scopes tr a =
      after_round-keeps (poll w n deadline releases scopes) deadline
        (read_round w scopes releases [] tr) (read_round-keeps scopes releases [] tr a)
        (poll-keeps n deadline releases scopes)

  pub await_settled-keeps :
      (timeout : ℕ) (scopes : Scopes) (tr : Trace) → P tr → P (await_settled w timeout scopes tr).1
  unfolding await_settled
  await_settled-keeps timeout scopes tr a = elim (Bool-cases (is_empty scopes)) [
    | inl e ↦ rw e a
    | inr e ↦ rw e (poll-keeps _ _ _ scopes (clock ∷ tr) (quiet.of_clock tr a))
  ]

  pub await_converged-keeps :
      (policy : Bool × ℕ) (release : Str) (wrote : List Str) (tr : Trace)
      → P tr
      → P (await_converged w policy release wrote tr).1
  unfolding await_converged
  await_converged-keeps policy release wrote tr a = elim (Bool-cases policy.0) [
    | inl e ↦ rw e (await_settled-keeps policy.1 ((release, wrote) ∷ []) tr a)
    | inr e ↦ rw e a
  ]
