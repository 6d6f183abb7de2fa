-- ===== src/Prune/Volumes/Settle.antt =====
-- The retry loop of a removal ends: prune/prune.go, settle.
use swarmcli_cd.Base.{ℕ, zero, suc, ◌+◌, ◌*◌, ◌<◌, ◌≤◌, ◌≡◌, ◌≢◌, false, some, ◌∷◌, arith, Str}
use swarmcli_cd.Prune.Calls.{Host, Event, wait, Trace, out_of_rounds, Swarm}
use swarmcli_cd.Prune.Volumes.{
  failed, removal_call, volume_settle_timeout, volume_settle_interval, settle, remove_one,
}

-- The clock never goes back, a wait that its timer ended took its interval, and `out_of_rounds`,
-- which is the model's own, is no answer of a component outside.
pub record IsTimed (s : Swarm) : Type 0 where
  pub forward : (e : Event) (tr : Trace) → s.now tr ≤ s.now (e ∷ tr)
  pub waited :
      (tr : Trace)
      → s.is_interrupted (wait ∷ tr) ≡ false
      → s.now tr + volume_settle_interval ≤ s.now (wait ∷ tr)
  pub answers : (tr : Trace) → s.fails tr ≢ some out_of_rounds
  pub context : s.context_error ≢ out_of_rounds

module _ (s : Swarm) (timed : IsTimed s) where
  settle_ends_from :
      (rounds deadline : ℕ) (call : Event) (tr : Trace)
      → deadline < s.now tr + rounds * volume_settle_interval
      → (settle s (suc rounds) deadline call tr).0 ≢ failed out_of_rounds
  unfolding settle
  settle_ends_from zero deadline call tr h =
      ground (arith, timed.forward call tr, timed.answers (call ∷ tr), timed.context)
  settle_ends_from (suc rounds) deadline call tr h = ground (
    arith,
    timed.forward call tr,
    timed.waited (call ∷ tr),
    timed.answers (call ∷ tr),
    timed.context,
    settle_ends_from rounds deadline call (wait ∷ call ∷ tr),
  )

  -- With a clock that goes forward and waits that take their interval, a removal ends by one of
  -- the loop's own returns: the rounds that are allowed for never run out.
  pub remove_one_ends :
      (h : Host) (release name : Str) (tr : Trace)
      → (remove_one s h release name tr).0 ≢ failed out_of_rounds
  unfolding remove_one
  remove_one_ends h release name tr =
      settle_ends_from 16 (s.now tr + volume_settle_timeout) (removal_call s h release name) tr
        (omega arith)
