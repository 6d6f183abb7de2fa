-- ===== src/Tests/Services.antt =====
-- Health of health/health.go at a concrete engine.
use swarmcli_cd.Base.{◌≡◌, ◌↔◌, refl, true, false, [], ◌∷◌, Str, str, arith, length}
use swarmcli_cd.Application.{healthy}
use swarmcli_cd.Health.{converged, wedged, Engine, Input, release}
use swarmcli_cd.Health.Rollup.{IsRollup, release-IsRollup}

-- An engine that calls a service wedged while its update state is set.
pub record Service : Type 0 where
  pub name : Str
  pub update_state : Str

abbrev engine : Engine
engine = record {
  State = Service;
  name = λ s. s.name;
  mode = λ s. str "replicated";
  running = λ s. 1;
  desired = λ s. 1;
  completed = λ s. 0;
  update_state = λ s. s.update_state;
  settled = λ s. record s { update_state = [] };
  convergence =
      λ s. elim s.update_state [ [] ↦ (converged, []) | c ∷ cs ↦ (wedged, str "rolled back") ];
  rollback_completed = str "rollback_completed";
}

abbrev api : Service
api = record { name = str "api"; update_state = str "rollback_completed" }

abbrev input : Input engine
input = record {
  states = api ∷ [];
  installed = true;
  sync_failed = false;
  read_failed = false;
  as_declared = str "api" ∷ [];
}

release-IsRollup_example :
    let (h, xs) = release engine input in
    IsRollup h.state h.message h.services.healthy_count xs
    × (length xs ≡ 1)
    × (h.services.total ≡ 1)
    × ((h.state ≡ healthy) ↔ (h.services.healthy_count ≡ h.services.total))
release-IsRollup_example = release-IsRollup engine input refl refl (λ e. ground arith)
