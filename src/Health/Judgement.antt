-- ===== src/Health/Judgement.antt =====
-- What one service is called, and which inputs make a release Missing or Unknown: health/health.go.
use swarmcli_cd.Base.{
  ◌≡◌, ◌≢◌, ◌↔◌, ◌⊎◌, true, false, List, [], ◌∷◌, arith, Str, seq_iff, elem_iff, In,
}
use swarmcli_cd.Application.{health_unknown, degraded, missing}
use swarmcli_cd.Health.{
  wedged, other_phase, Engine, Input, service_health, Tally, tally_service, tally_services,
  no_tally, release,
}

module _ (engine : Engine) where
  open engine use {State, name, update_state, settled, convergence, rollback_completed}

  -- The rollback is over, and what it restored is what the repository declares.
  abbrev pub IsSettled : State → List Str → Type 0
  IsSettled s as_declared = (update_state s ≡ rollback_completed) × In (name s) as_declared

  -- A service is degraded exactly if the engine calls it wedged and it is not a settled rollback; or
  -- it is one, and the engine still calls it wedged with the update state cleared; or the verdict
  -- that is taken is neither wedged nor converged and the last sync failed.
  pub service_degraded_iff :
      (s : State) (input : Input engine)
      → ((service_health engine s input).0 ≡ degraded) ↔ (
          (((convergence s).0 ≡ wedged) × (¬ (IsSettled s input.as_declared)))
          ⊎ ((((convergence s).0 ≡ wedged)
                × IsSettled s input.as_declared
                × ((convergence (settled s)).0 ≡ wedged))
              ⊎ ((input.sync_failed ≡ true)
                  × ((((convergence s).0 ≡ other_phase))
                      ⊎ (((convergence s).0 ≡ wedged)
                          × IsSettled s input.as_declared
                          × ((convergence (settled s)).0 ≡ other_phase))))))
  unfolding service_health
  service_degraded_iff s input =
      ground
        (arith, seq_iff (update_state s) rollback_completed, elem_iff (name s) input.as_declared)

  judged_states :
      (s : State) (input : Input engine)
      → ((service_health engine s input).0 ≢ missing)
        × ((service_health engine s input).0 ≢ health_unknown)
  unfolding service_health
  judged_states s input = ground arith

  tally_step :
      (input : Input engine) (s : State) (t : Tally engine)
      → (t.worst ≢ missing) × (t.worst ≢ health_unknown)
      → ((tally_service engine input t s).worst ≢ missing)
        × ((tally_service engine input t s).worst ≢ health_unknown)
  unfolding tally_service
  tally_step input s t h = ground (arith, judged_states s input)

  tally_states :
      (input : Input engine) (ss : List State) (t : Tally engine)
      → (t.worst ≢ missing) × (t.worst ≢ health_unknown)
      → ((tally_services engine input t ss).worst ≢ missing)
        × ((tally_services engine input t ss).worst ≢ health_unknown)
  unfolding tally_services
  tally_states input [] t h = h
  tally_states input (s ∷ ss) t h =
      tally_states input ss (tally_service engine input t s) (tally_step input s t h)

  -- A release is Missing exactly if it was never installed, or was read and has no service; and it is
  -- Unknown exactly if it was installed and the swarm could not be read.
  pub release_missing_unknown_iff :
      (input : Input engine)
      → (((release engine input).0.state ≡ missing) ↔ (
          (input.installed ≡ false)
          ⊎ ((input.installed ≡ true) × (input.read_failed ≡ false) × (input.states ≡ []))))
        × (((release engine input).0.state ≡ health_unknown)
            ↔ ((input.installed ≡ true) × (input.read_failed ≡ true)))
  unfolding release
  release_missing_unknown_iff input =
      ground (arith, tally_states input input.states (no_tally engine) ((λ e. cc), (λ e. cc)))
