-- ===== src/Reconcile/Converge.antt =====
-- reconcile/reconcile.go, converge and what it calls: the redeploy of releases whose running services
-- were changed outside the repository, wave by wave, with the waits for them to settle.
pub mod Ends
pub mod Corrected
pub mod Drifted
pub mod Quiet
pub mod Seen
pub mod Waves
use swarmcli_cd.Base.{
  ℕ, zero, suc, ◌+◌, ◌/◌, Bool, true, false, not, ◌&&◌, ◌||◌, Option, none, some, List, [], ◌∷◌,
  ◌++◌, map, Str, str, seq, elem, is_empty, keep, ltb, if◌then◌else◌, Outcome, ok, err,
}
use swarmcli_cd.Health.{Phase, converged, wedged, other_phase}
use swarmcli_cd.Prune.Rule.{sort_names}
use swarmcli_cd.Reconcile.Installs.{ReleasePlan, wave_groups}

pub data DriftState : Type 0 where
  unknown no_drift drifted : DriftState

pub data DriftReason : Type 0 where
  modified missing unexpected rolled_back : DriftReason

pub record ServiceDrift : Type 0 where
  pub name : Str
  pub reason : DriftReason

-- What the code here reads of `ReleaseDrift`.
pub record ReleaseDrift : Type 0 where
  pub state : DriftState
  pub services : List ServiceDrift

-- `map[string]*ReleaseDrift`; a name that is missing has a nil entry.
abbrev pub Drifts : Type 0
Drifts = List (Str × ReleaseDrift)

unfoldable pub drift_of : Str → Drifts → Option ReleaseDrift
drift_of name [] = none
drift_of name (kv ∷ rest) =
    let later = drift_of name rest in if seq kv.0 name then some kv.1 else later

abbrev is_drifted : DriftState → Bool
is_drifted drifted = true
is_drifted _ = false

unfoldable pub detected : Option ReleaseDrift → Bool
detected none = false
detected (some d) = is_drifted d.state

abbrev is_rolled_back : ServiceDrift → Bool
is_rolled_back svc = elim svc.reason [ rolled_back ↦ true | _ ↦ false ]

-- A difference that a redeploy can put right.
abbrev is_fixable : ServiceDrift → Bool
is_fixable svc = elim svc.reason [ modified ↦ true | missing ↦ true | _ ↦ false ]

unfoldable pub convergeable : Option ReleaseDrift → Bool
convergeable none = false
convergeable (some d) =
    is_drifted d.state
    && (is_empty (keep is_rolled_back d.services) && not (is_empty (keep is_fixable d.services)))

unfoldable pub correcting : Option ReleaseDrift → List Str
correcting none = []
correcting (some d) = map (λ svc. svc.name) (keep is_fixable d.services)

unfoldable pub drifted_names : (Option ReleaseDrift → Bool) → Drifts → List ReleasePlan → List Str
drifted_names want live [] = []
drifted_names want live (rp ∷ rest) =
    let later = drifted_names want live rest in
    if want (drift_of rp.name live) then rp.name ∷ later else later

unfoldable pub drifted_releases :
    List ReleasePlan → Drifts → (Option ReleaseDrift → Bool) → List Str
drifted_releases plan live want = if is_empty live then [] else drifted_names want live plan

-- `manifests[name]`: of several releases by one name, the last.
unfoldable pub manifest_of : Str → List ReleasePlan → Str
manifest_of name [] = []
manifest_of name (rp ∷ rest) =
    let later = manifest_of name rest in
    if elem name (map (λ r. r.name) rest)
    then later
    else if seq rp.name name
    then rp.manifest
    else []

pub data Event : Type 0 where
  deploy : Str → Str → Event
  read : Str → Event
  clock wait : Event

-- The newest event first.
abbrev pub Trace : Type 0
Trace = List Event

pub data ConvergeError : Type 0 where
  cancelled unfinished : ConvergeError
  not_converged : Str → Str → ConvergeError
  timed_out : List Str → ConvergeError
  undeployed : Str → ConvergeError
  converging : Str → ConvergeError → ConvergeError
  waiting_for_wave : ℕ → ConvergeError → ConvergeError

-- What answers the calls: `deployed` and `states` answer the event at the head of the trace.
-- `State` is the chart engine's account of a service, and `rollup` its judgement of several.
pub record Answers : Type 1 where
  pub State : Type 0
  pub name : State → Str
  pub rollup : List State → Phase × Str
  pub is_cancelled : Trace → Bool
  pub deployed : Trace → Option Str
  pub states : Trace → List State
  pub now : Trace → ℕ

abbrev pub Result : Type 0
Result = Option ConvergeError × Trace

-- Each corrected release with the services that its correction was made for.
abbrev pub Scopes : Type 0
Scopes = List (Str × List Str)

unfoldable pub scope_of : Str → Scopes → List Str
scope_of release [] = []
scope_of release (kv ∷ rest) =
    let later = scope_of release rest in if seq kv.0 release then kv.1 else later

-- Nanoseconds, as `time.Duration` counts.
abbrev pub converge_poll_interval : ℕ
converge_poll_interval = 2000000000

abbrev pub default_converge_timeout : ℕ
default_converge_timeout = 300000000000

module _ (w : Answers) where
  unfoldable pub scoped_to : List w.State → List Str → List w.State
  scoped_to states names =
      if is_empty names then states else keep (λ s. elem (w.name s) names) states

  -- The verdict on one release, within a round over all of them.
  abbrev pub judged :
      Str
      → (List Str → Trace → Outcome ConvergeError (List Str) × Trace)
      → Phase × Str
      → List Str
      → Trace
      → Outcome ConvergeError (List Str) × Trace
  judged release next (wedged, reason) pending tr = (err (not_converged release reason), tr)
  judged release next (converged, reason) pending tr = next pending tr
  judged release next (other_phase, reason) pending tr = next (pending ++ (release ∷ [])) tr

  unfoldable pub read_round :
      Scopes → List Str → List Str → Trace → Outcome ConvergeError (List Str) × Trace
  read_round scopes [] pending tr = (ok pending, tr)
  read_round scopes (r ∷ rs) pending tr =
      judged r (read_round scopes rs)
        (w.rollup (scoped_to (w.states (read r ∷ tr)) (scope_of r scopes))) pending (read r ∷ tr)

  -- The end of a round: done, out of time, cancelled, or another round after the wait.
  abbrev pub after_round : (Trace → Result) → ℕ → Outcome ConvergeError (List Str) × Trace → Result
  after_round next deadline (err e, tr) = (some e, tr)
  after_round next deadline (ok [], tr) = (none, tr)
  after_round next deadline (ok (p ∷ ps), tr) =
      if not (ltb (w.now (clock ∷ tr)) deadline)
      then (some (timed_out (p ∷ ps)), clock ∷ tr)
      else if w.is_cancelled (wait ∷ (clock ∷ tr))
      then (some cancelled, wait ∷ (clock ∷ tr))
      else next (wait ∷ (clock ∷ tr))

  -- The loop, on fuel.
  unfoldable pub poll : ℕ → ℕ → List Str → Scopes → Trace → Result
  poll zero deadline releases scopes tr = (some unfinished, tr)
  poll (suc n) deadline releases scopes tr =
      after_round (poll n deadline releases scopes) deadline (read_round scopes releases [] tr)

  abbrev pub poll_rounds : ℕ → ℕ
  poll_rounds timeout = suc (suc (timeout / converge_poll_interval))

  abbrev pub timeout_or_default : ℕ → ℕ
  timeout_or_default zero = default_converge_timeout
  timeout_or_default (suc t) = suc t

  -- `timeout` is the policy's, where 0 stands for all that are not positive.
  unfoldable pub await_settled : ℕ → Scopes → Trace → Result
  await_settled timeout scopes tr =
      if is_empty scopes
      then (none, tr)
      else poll (poll_rounds (timeout_or_default timeout))
          (w.now (clock ∷ tr) + timeout_or_default timeout) (sort_names (map (λ kv. kv.0) scopes))
          scopes (clock ∷ tr)

  -- `policy` is `Wait` and `Timeout` of the sync policy.
  unfoldable pub await_converged : Bool × ℕ → Str → List Str → Trace → Result
  await_converged policy release wrote tr =
      if not policy.0 then (none, tr) else await_settled policy.1 ((release, wrote) ∷ []) tr

  -- What the loops collect; `scopes` is the current wave's.
  pub record Pass : Type 0 where
    pub errs : List ConvergeError
    pub converged : List Str
    pub scopes : Scopes

  abbrev pub begun : Pass
  begun = record { errs = []; converged = []; scopes = [] }

  -- `err` for a return out of the loops.
  abbrev pub Passed : Type 0
  Passed = Outcome ConvergeError Pass × Trace

  abbrev pub and_next : Passed → (Pass → Trace → Passed) → Passed
  and_next (ok p, tr) next = next p tr
  and_next (err e, tr) next = (err e, tr)

  module _ (policy : Bool × ℕ) (plan : List ReleasePlan) (live : Drifts) where
    abbrev pub noted : ConvergeError → Pass → Pass
    noted e p = record p { errs = p.errs ++ (e ∷ []) }

    abbrev pub settled : Str → List Str → Pass → Result → Pass × Trace
    settled release scope p (some e, tr) = (noted (converging release e) p, tr)
    settled release scope p (none, tr) = (
      record p {
        converged = p.converged ++ (release ∷ []);
        scopes = p.scopes ++ ((release, scope) ∷ []);
      },
      tr,
    )

    abbrev pub after_deploy : Str → Pass → Option Str → Trace → Pass × Trace
    after_deploy release p (some e) tr = (noted (converging release (undeployed e)) p, tr)
    after_deploy release p none tr =
        let scope = correcting (drift_of release live) in
        settled release scope p (await_converged policy release scope tr)

    abbrev pub deploying : Str → Event
    deploying release = deploy release (manifest_of release plan)

    -- One release of a wave.
    unfoldable pub correct : List Str → ReleasePlan → Pass → Trace → Passed
    correct wanted rp p tr =
        if not (elem rp.name wanted)
        then (ok p, tr)
        else if w.is_cancelled tr
        then (err cancelled, tr)
        else (let (p', tr') =
              after_deploy rp.name p (w.deployed (deploying rp.name ∷ tr))
                (deploying rp.name ∷ tr) in
            (ok p', tr'))

    unfoldable pub correct_wave : List Str → List ReleasePlan → Pass → Trace → Passed
    correct_wave wanted [] p tr = (ok p, tr)
    correct_wave wanted (rp ∷ rest) p tr =
        and_next (correct wanted rp p tr) (correct_wave wanted rest)

    abbrev pub wave_of : List ReleasePlan → ℕ
    wave_of [] = 0
    wave_of (rp ∷ rest) = rp.wave

    -- What follows the wait at a boundary: a wave that does not settle ends the loop.
    abbrev pub barred : ℕ → (Pass → Trace → Passed) → Pass → Result → Passed
    barred wave next p (some e, tr) = (ok (noted (waiting_for_wave wave e) p), tr)
    barred wave next p (none, tr) = next p tr

    -- The boundary after a wave, `is_last` for none.
    abbrev pub boundary : ℕ → Bool → (Pass → Trace → Passed) → Pass → Trace → Passed
    boundary wave is_last next p tr =
        if is_last || is_empty p.scopes
        then next p tr
        else barred wave next p (await_settled policy.1 p.scopes tr)

    unfoldable pub correct_waves : List Str → List (List ReleasePlan) → Pass → Trace → Passed
    correct_waves wanted [] p tr = (ok p, tr)
    correct_waves wanted (wave ∷ rest) p tr =
        and_next (correct_wave wanted wave (record p { scopes = [] }) tr)
          (boundary (wave_of wave) (is_empty rest) (correct_waves wanted rest))

    -- The errors that are joined and the releases that the event names, or the error returned at
    -- once.
    unfoldable pub converge : Trace → Passed
    converge tr =
        if is_empty (drifted_releases plan live convergeable)
        then (ok begun, tr)
        else correct_waves (drifted_releases plan live convergeable) (wave_groups plan) begun tr
