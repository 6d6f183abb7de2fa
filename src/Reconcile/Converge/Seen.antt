-- ===== src/Reconcile/Converge/Seen.antt =====
-- What the waits of converge, in reconcile/reconcile.go, have seen when they end without an error.
use swarmcli_cd.Base.{
  ℕ, zero, suc, ◌≡◌, refl, ap, true, none, List, [], ◌∷◌, ◌++◌, arith, Str, In, All, of_All, ◌⊎◌,
  Outcome, ok, err, Bool-cases, inl, inr, map, is_empty,
}
use swarmcli_cd.Health.{Phase, converged, wedged, other_phase}
use swarmcli_cd.Prune.Claims.{In-sort_names}
use swarmcli_cd.Reconcile.Converge.{
  Answers, read, clock, wait, Trace, ConvergeError, Scopes, scope_of, scoped_to, judged, read_round,
  after_round, poll, await_settled, Result,
}
use swarmcli_cd.Reconcile.Converge.Waves.{snoc_not_empty}

-- An earlier state of the trace, or the trace itself.
abbrev pub Within : Trace → Trace → Type 0
Within old [] = old ≡ []
Within old (e ∷ tr) = (old ≡ e ∷ tr) ⊎ Within old tr

Within-refl : (tr : Trace) → Within tr tr
Within-refl [] = refl
Within-refl (e ∷ tr) = inl refl

none_waited :
    (r : Str) (scopes : Scopes) → is_empty scopes ≡ true → ¬ (In r (map (λ kv. kv.0) scopes))
none_waited r [] e i = i
none_waited r (x ∷ xs) e i = ground arith

module _ (w : Answers) (scopes : Scopes) (tr0 : Trace) where
  abbrev pub verdict_at : Str → Trace → Phase × Str
  verdict_at r tr = w.rollup (scoped_to w (w.states (read r ∷ tr)) (scope_of r scopes))

  -- A reading between the two traces found the services that the release was corrected for converged.
  abbrev pub Seen : Trace → Str → Type 0
  Seen now r =
      (tr : Trace) × Within tr0 tr × Within (read r ∷ tr) now × ((verdict_at r tr).0 ≡ converged)

  -- A round that leaves nothing pending.
  abbrev Saw : List Str → List Str → Outcome ConvergeError (List Str) × Trace → Type 0
  Saw rs pending o = o.0 ≡ ok [] → (pending ≡ []) × All (Seen o.1) rs

  judged-Within :
      (old : Trace) (r : Str) (next : List Str → Trace → Outcome ConvergeError (List Str) × Trace)
      (v : Phase × Str) (pending : List Str) (tr : Trace)
      → Within old tr
      → ((p : List Str) → Within old (next p tr).1)
      → Within old (judged w r next v pending tr).1
  judged-Within old r next (wedged, reason) pending tr g h = g
  judged-Within old r next (converged, reason) pending tr g h = h pending
  judged-Within old r next (other_phase, reason) pending tr g h = h (pending ++ (r ∷ []))

  read_round-Within :
      (old : Trace) (rs pending : List Str) (tr : Trace)
      → Within old tr
      → Within old (read_round w scopes rs pending tr).1
  unfolding read_round
  read_round-Within old [] pending tr g = g
  read_round-Within old (r ∷ rs) pending tr g =
      judged-Within old r (read_round w scopes rs) (verdict_at r tr) pending (read r ∷ tr) (inr g)
        λ p. read_round-Within old rs p (read r ∷ tr) (inr g)

  judged-Saw :
      (r : Str) (rs : List Str) (v : Phase × Str) (pending : List Str) (tr : Trace)
      → verdict_at r tr ≡ v
      → Within tr0 tr
      → ((p : List Str) → Saw rs p (read_round w scopes rs p (read r ∷ tr)))
      → Saw (r ∷ rs) pending (judged w r (read_round w scopes rs) v pending (read r ∷ tr))
  judged-Saw r rs (wedged, reason) pending tr q g h = λ e. ground arith
  judged-Saw r rs (converged, reason) pending tr q g h = λ e.
      let (p, a) = h pending e in
      (
        p,
        (
          (
            tr,
            g,
            read_round-Within (read r ∷ tr) rs pending (read r ∷ tr) (inl refl),
            ap (λ v. v.0) q,
          ),
          a,
        ),
      )
  judged-Saw r rs (other_phase, reason) pending tr q g h =
      λ e. absurd (snoc_not_empty pending r (h (pending ++ (r ∷ [])) e).0)

  read_round-Saw :
      (rs pending : List Str) (tr : Trace)
      → Within tr0 tr
      → Saw rs pending (read_round w scopes rs pending tr)
  unfolding read_round
  read_round-Saw [] pending tr g = λ e. (ground arith, tt)
  read_round-Saw (r ∷ rs) pending tr g =
      judged-Saw r rs (verdict_at r tr) pending tr refl g
        λ p. read_round-Saw rs p (read r ∷ tr) (inr g)

  after_round-Seen :
      (rs : List Str) (next : Trace → Result) (deadline : ℕ)
      (o : Outcome ConvergeError (List Str) × Trace)
      → Within tr0 o.1
      → Saw rs [] o
      → ((tr : Trace) → Within tr0 tr → (next tr).0 ≡ none → All (Seen (next tr).1) rs)
      → (after_round w next deadline o).0 ≡ none
      → All (Seen (after_round w next deadline o).1) rs
  after_round-Seen rs next deadline (err e, tr) g s h q = ground arith
  after_round-Seen rs next deadline (ok [], tr) g s h q = (s refl).1
  after_round-Seen rs next deadline (ok (p ∷ ps), tr) g s h q =
      ground (arith, h (wait ∷ (clock ∷ tr)) (inr (inr g)))

  poll-Seen :
      (n deadline : ℕ) (rs : List Str) (tr : Trace)
      → Within tr0 tr
      → (poll w n deadline rs scopes tr).0 ≡ none
      → All (Seen (poll w n deadline rs scopes tr).1) rs
  unfolding poll
  poll-Seen zero deadline rs tr g q = ground arith
  poll-Seen (suc n) deadline rs tr g q =
      after_round-Seen rs (poll w n deadline rs scopes) deadline (read_round w scopes rs [] tr)
        (read_round-Within tr0 rs [] tr g) (read_round-Saw rs [] tr g) (poll-Seen n deadline rs) q

  -- A wait that ends without an error has, since it began, read each release that it waited for with
  -- the services that the release was corrected for converged.
  pub await_settled-Seen :
      (timeout : ℕ) (r : Str)
      → (await_settled w timeout scopes tr0).0 ≡ none
      → In r (map (λ kv. kv.0) scopes)
      → Seen (await_settled w timeout scopes tr0).1 r
  unfolding await_settled
  await_settled-Seen timeout r q i = elim (Bool-cases (is_empty scopes)) [
    | inl e ↦ absurd (none_waited r scopes e i)
    | inr e ↦ rw e (
        of_All (Seen _) r _ (poll-Seen _ _ _ (clock ∷ tr0) (inr (Within-refl tr0)) (rw e at q))
          ((In-sort_names r (map (λ kv. kv.0) scopes)).1 i))
  ]
