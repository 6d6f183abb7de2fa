-- ===== src/Health.antt =====
-- health/health.go: the rollup of services to a release and of releases to an application.
pub mod Rollup
pub mod Applications
pub mod Judgement
use swarmcli_cd.Base.{
  ℕ, zero, suc, ◌+◌, Bool, true, false, not, ◌&&◌, Option, none, some, List, [], ◌∷◌, ◌++◌, Str,
  str, seq, elem, length, ltb, is_empty, if◌then◌else◌,
}
use swarmcli_cd.Application.{
  HealthState, health_unknown, healthy, progressing, degraded, missing, ServiceCounts, Health,
  ServiceStatus, ReleaseHealth,
}

-- `charts.Convergence.Phase`, as far as the code tells its values apart.
pub data Phase : Type 0 where
  converged wedged other_phase : Phase

-- The chart engine's account of a service is not part of the program: its fields, the copy with the
-- update state cleared, and the predicate `Convergence` with its reason.
pub record Engine : Type 1 where
  pub State : Type 0
  pub name : State → Str
  pub mode : State → Str
  pub running : State → ℕ
  pub desired : State → ℕ
  pub completed : State → ℕ
  pub update_state : State → Str
  pub settled : State → State
  pub convergence : State → Phase × Str
  -- `swarm.UpdateStateRollbackCompleted`
  pub rollback_completed : Str

unfoldable pub rank : HealthState → ℕ
rank degraded = 4
rank missing = 3
rank progressing = 2
rank health_unknown = 1
rank healthy = 0

abbrev pub is_healthy : HealthState → Bool
is_healthy healthy = true
is_healthy _ = false

abbrev pub is_wedged : Phase → Bool
is_wedged wedged = true
is_wedged _ = false

abbrev no_counts : ServiceCounts
no_counts = record { healthy_count = 0; total = 0 }

module _ (engine : Engine) where
  open engine use {
    State, name, mode, running, desired, completed, update_state, settled, convergence,
    rollback_completed,
  }

  pub record Input : Type 0 where
    pub states : List State
    pub installed : Bool
    pub sync_failed : Bool
    pub read_failed : Bool
    pub as_declared : List Str

  -- The one wedged verdict that is asked again, with the update state cleared.
  unfoldable pub verdict : State → List Str → Phase × Str
  verdict s as_declared =
      if is_wedged (convergence s).0
        && (seq (update_state s) rollback_completed && elem (name s) as_declared)
      then convergence (settled s)
      else convergence s

  abbrev pub state_of_phase : Bool → Phase → Str → HealthState × Str
  state_of_phase sync_failed converged reason = (healthy, [])
  state_of_phase sync_failed wedged reason = (degraded, reason)
  state_of_phase sync_failed other_phase reason =
      if sync_failed
      then (degraded, reason ++ str " (the last sync did not succeed)")
      else (progressing, reason)

  unfoldable pub service_health : State → Input → HealthState × Str
  unfolding verdict
  service_health s input =
      let c = verdict s input.as_declared in state_of_phase input.sync_failed c.0 c.1

  abbrev pub status_of : State → HealthState × Str → ServiceStatus
  status_of s h = record {
    name = name s;
    mode = mode s;
    running = running s;
    desired = desired s;
    completed = completed s;
    health = h.0;
    update_state = update_state s;
    message = h.1;
  }

  -- The loop's variables: the statuses, the worst state with its message, and the healthy count.
  pub record Tally : Type 0 where
    pub statuses : List ServiceStatus
    pub worst : HealthState
    pub message : Str
    pub healthy_count : ℕ

  unfoldable pub tally_service : Input → Tally → State → Tally
  tally_service input t s =
      let h = service_health s input in
      let is_worse = ltb (rank t.worst) (rank h.0) in
      record {
        statuses = t.statuses ++ (status_of s h ∷ []);
        worst = if is_worse then h.0 else t.worst;
        message = if is_worse then str "service '" ++ (name s ++ (str "': " ++ h.1)) else t.message;
        healthy_count = if is_healthy h.0 then suc t.healthy_count else t.healthy_count;
      }

  unfoldable pub tally_services : Input → Tally → List State → Tally
  tally_services input t [] = t
  tally_services input t (s ∷ ss) = tally_services input (tally_service input t s) ss

  abbrev pub no_tally : Tally
  no_tally = record { statuses = []; worst = healthy; message = []; healthy_count = 0 }

  unfoldable pub release : Input → Health × List ServiceStatus
  release input =
      if not input.installed
      then (
        record {
          state = missing;
          message = str "declared in the repository but not deployed";
          services = no_counts;
        },
        [],
      )
      else if input.read_failed
      then (
        record {
          state = health_unknown;
          message = str "the swarm could not be read, so this release's health is not known";
          services = no_counts;
        },
        [],
      )
      else if is_empty input.states
      then (
        record {
          state = missing;
          message = str "deployed, but no services are present on the swarm";
          services = no_counts;
        },
        [],
      )
      else (let t = tally_services input no_tally input.states in
          (
            record {
              state = t.worst;
              message = t.message;
              services = record { healthy_count = t.healthy_count; total = length input.states };
            },
            t.statuses,
          ))

-- The body of the loop of `Application`.
unfoldable pub roll_release : Health → ReleaseHealth → Health
roll_release out rel =
    let is_worse = ltb (rank out.state) (rank rel.health.state) in
    record {
      state = if is_worse then rel.health.state else out.state;
      message =
          if is_worse
          then str "release '" ++ (rel.name ++ (str "': " ++ rel.health.message))
          else out.message;
      services = record {
        healthy_count = out.services.healthy_count + rel.health.services.healthy_count;
        total = out.services.total + rel.health.services.total;
      };
    }

unfoldable pub roll_releases : Health → List ReleaseHealth → Health
roll_releases out [] = out
roll_releases out (rel ∷ rels) = roll_releases (roll_release out rel) rels

-- `Application`
unfoldable pub application_health : List ReleaseHealth → Health
application_health [] = record { state = health_unknown; message = []; services = no_counts }
application_health (rel ∷ rels) =
    roll_releases (record { state = healthy; message = []; services = no_counts }) (rel ∷ rels)
