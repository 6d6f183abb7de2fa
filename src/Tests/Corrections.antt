-- ===== src/Tests/Corrections.antt =====
-- Runs of the correction of drift, and the theorems on it at work.
use swarmcli_cd.Base.{
  map, ℕ, ◌+◌, ◌≡◌, ◌≢◌, ◌≤◌, inl, refl, true, false, none, some, List, [], ◌∷◌, arith, Str, str,
  seq, elem, All, ok,
}
use swarmcli_cd.Health.{converged}
use swarmcli_cd.Prune.Rule.{sort_names}
use swarmcli_cd.Reconcile.Installs.{ReleasePlan, unchanged, compat_ok, wave_groups, group_from}
use swarmcli_cd.Reconcile.Converge.{
  Drifts, drifted, modified, Event, deploy, read, clock, wait, Trace, Answers, unfinished, Pass,
  drift_of, convergeable, drifted_names, drifted_releases, correcting, manifest_of, scope_of,
  scoped_to, read_round, poll, await_settled, await_converged, correct, correct_wave, correct_waves,
  converge, Scopes,
}
use swarmcli_cd.Reconcile.Converge.Ends.{IsTimed, await_settled_ends}
use swarmcli_cd.Reconcile.Converge.Seen.{Seen, await_settled-Seen}
use swarmcli_cd.Reconcile.Converge.Waves.{deploys}
use swarmcli_cd.Reconcile.Converge.Corrected.{Restores, converge-Restores, converge_exact}

unfoldable time : Trace → ℕ
time [] = 0
time (deploy n m ∷ tr) = time tr
time (read n ∷ tr) = time tr
time (clock ∷ tr) = time tr
time (wait ∷ tr) = time tr + 2000000000

abbrev swarm : Answers
swarm = record {
  State = Str;
  name = λ s. s;
  rollup = λ states. (converged, []);
  is_cancelled = λ tr. false;
  deployed = λ tr. none;
  states = λ tr. [];
  now = time;
}

time-forward : (e : Event) (tr : Trace) → time tr ≤ time (e ∷ tr)
unfolding time
time-forward (deploy n m) tr = omega arith
time-forward (read n) tr = omega arith
time-forward clock tr = omega arith
time-forward wait tr = omega arith

swarm-IsTimed : IsTimed swarm
unfolding time
swarm-IsTimed = record { forward = time-forward; waited = λ tr e. omega arith }

abbrev release_at : Str → ℕ → ReleasePlan
release_at name wave = record {
  name = name;
  action = unchanged;
  wave = wave;
  ref = [];
  to_version = [];
  current_manifest = [];
  manifest = name;
  compat = record { status = compat_ok; required = []; engine = []; reason = [] };
  compat_message = [];
}

abbrev two_waves : List ReleasePlan
two_waves = release_at (str "db") 0 ∷ (release_at (str "web") 1 ∷ [])

abbrev web_changed : Drifts
web_changed =
    (
      str "web",
      record {
        state = drifted;
        services = record { name = str "web_api"; reason = modified } ∷ [];
      },
    )
    ∷ []

abbrev corrected : Pass swarm
corrected = record {
  errs = [];
  converged = str "web" ∷ [];
  scopes = (str "web", str "web_api" ∷ []) ∷ [];
}

abbrev one_round : Trace
one_round = read (str "web") ∷ (clock ∷ (deploy (str "web") (str "web") ∷ []))

web_corrected : converge swarm (true, 0) two_waves web_changed [] ≡ (ok corrected, one_round)
unfolding time drift_of convergeable drifted_names drifted_releases correcting manifest_of scope_of
    scoped_to read_round poll await_settled await_converged correct correct_wave correct_waves
    converge wave_groups group_from sort_names seq elem
web_corrected = refl

converge_exact_example :
    (deploys swarm one_round
      ≡ map (λ n. (n, none)) (drifted_releases two_waves web_changed convergeable))
    × (str "web" ∷ [] ≡ drifted_releases two_waves web_changed convergeable)
converge_exact_example =
    converge_exact swarm (true, 0) two_waves web_changed corrected one_round web_corrected refl

converge-Restores_example :
    All
      (Restores swarm (true, 0) two_waves web_changed)
      (converge swarm (true, 0) two_waves web_changed []).1
converge-Restores_example = converge-Restores swarm (true, 0) two_waves web_changed

await_settled_ends_example :
    (await_settled swarm 0 ((str "web", str "web_api" ∷ []) ∷ []) []).0 ≢ some unfinished
await_settled_ends_example =
    await_settled_ends swarm swarm-IsTimed 0 ((str "web", str "web_api" ∷ []) ∷ []) []

abbrev web_scope : Scopes
web_scope = (str "web", str "web_api" ∷ []) ∷ []

web_settled : (await_settled swarm 0 web_scope []).0 ≡ none
unfolding time scope_of scoped_to read_round poll await_settled sort_names seq elem
web_settled = refl

await_settled-Seen_example :
    Seen swarm web_scope [] (await_settled swarm 0 web_scope []).1 (str "web")
await_settled-Seen_example =
    await_settled-Seen swarm web_scope [] 0 (str "web") web_settled (inl refl)
