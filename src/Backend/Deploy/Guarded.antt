-- ===== src/Backend/Deploy/Guarded.antt =====
-- backend/backend.go, DeployStack, with allowFor: the guards, and then the writes in their order.

use swarmcli_cd.Base.{
  ◌≡◌, ◌⊎◌, inl, inr, not, Option, none, some, List, [], ◌++◌, arith, Str, if◌then◌else◌, Outcome,
  Outcome-cases, Option-cases, ok, err, ◌then◌,
}
use swarmcli_cd.Application.{Allow}
use swarmcli_cd.Prune.Rule.{sort_names}
use swarmcli_cd.Backend.{Named, Stack, SelfMounts, Backend}
use swarmcli_cd.Backend.Records.{Platform}
use swarmcli_cd.Backend.Gate.{Daemon, reject_forbidden_resources}
use swarmcli_cd.Backend.Self.{
  Images, LiveService, reject_self_mismatch, reject_own_namespace, reject_own_namespace_in_case,
  reject_self_loss,
}
use swarmcli_cd.Backend.Collision.{reject_recorded_collision}
use swarmcli_cd.Backend.Deploy.{
  Trace, DeployError, self, collision, gate, converting, Answers, Result, and_then, reading,
}
use swarmcli_cd.Backend.Deploy.Apply.{apply_networks, apply_secrets, apply_configs, apply_services}

-- What the guards read before the first write, and the two conversions of the manifest.
pub record Reads : Type 0 where
  pub daemon : Daemon
  pub config_list : List Str → Outcome Str (List Named)
  pub inspect : Str → Outcome Str LiveService
  pub convert_unresolved : Allow → Outcome Str Stack
  pub convert : Trace → Allow → Outcome Str Stack

-- `slices.Sorted(maps.Keys(mine.binds))` after the paths of the application's own allowlist.
unfoldable pub allow_for : Backend → Outcome Str SelfMounts → Outcome Str Allow
allow_for b mounts = if not b.self_release then ok b.allow else elim mounts [
  | err e ↦ err e
  | ok mine ↦ ok (record b.allow { host_paths = b.allow.host_paths ++ sort_names mine.binds })
]

abbrev wrapped : {E : Type 0} → (E → DeployError) → Option E → Option DeployError
wrapped wrap none = none
wrapped wrap (some e) = some (wrap e)

-- A guard, and what is done once it finds no error.
abbrev checked : Option DeployError → (Trace → Result) → Trace → Result
checked none next tr = next tr
checked (some e) next tr = (some e, tr)

abbrev pub converted : Outcome Str Stack → (Stack → Trace → Result) → Trace → Result
converted (ok stack) next tr = next stack tr
converted (err e) next tr = (some (converting e), tr)

module _ (pf : Platform) (im : Images) (b : Backend) (r : Reads) (w : Answers)
    (release resolve : Str) where
  -- The two checks on the name, for a release that is not the controller's own.
  abbrev name_checks : Option DeployError
  name_checks =
      if b.self_release
      then none
      else (wrapped self (reject_own_namespace r.daemon.mounts release)
          then wrapped self (reject_own_namespace_in_case pf r.daemon.mounts release))

  -- The guards that read no manifest.
  unfoldable pub release_guards : Option DeployError
  release_guards =
      wrapped self (reject_self_mismatch b r.daemon.mounts release)
      then name_checks
      then wrapped collision (reject_recorded_collision pf b release r.config_list).1

  -- The guards on what the manifest declares.
  unfoldable pub manifest_guards : Stack → Option DeployError
  manifest_guards stack =
      wrapped gate (reject_forbidden_resources pf b r.daemon stack)
      then wrapped self (reject_self_loss im b r.daemon.mounts r.inspect stack)

  -- The writes: networks, secrets, configs, and then the services of the second conversion.
  abbrev pub apply_resolved : Allow → Trace → Result
  apply_resolved allow tr =
      converted (r.convert tr allow)
        (λ resolved. apply_services pf im b w r.daemon.mounts resolved resolve) tr

  abbrev pub from_configs : Allow → Stack → Trace → Result
  from_configs allow stack tr =
      and_then (apply_configs pf im b w stack.configs tr) (apply_resolved allow)

  abbrev pub from_secrets : Allow → Stack → Trace → Result
  from_secrets allow stack tr =
      and_then (apply_secrets pf im b w stack.secrets tr) (from_configs allow stack)

  unfoldable pub apply_stack : Allow → Stack → Trace → Result
  apply_stack allow stack tr =
      and_then (apply_networks pf im b w stack.networks tr) (from_secrets allow stack)

  unfoldable pub deploy_stack : Trace → Result
  deploy_stack = checked release_guards (
      reading (allow_for b r.daemon.mounts) λ allow.
        converted (r.convert_unresolved allow)
          λ stack. checked (manifest_guards stack) (apply_stack allow stack))

  -- The two conversions and the guards, all passed.
  abbrev pub Guarded : Allow → Stack → Type 0
  Guarded allow stack =
      (release_guards ≡ none)
      × (allow_for b r.daemon.mounts ≡ ok allow)
      × (r.convert_unresolved allow ≡ ok stack)
      × (manifest_guards stack ≡ none)

  -- A deploy writes nothing, or it passed every guard and then writes.
  pub deploy_stack-cases :
      ((deploy_stack []).1 ≡ [])
      ⊎ ((allow : Allow) × (stack : Stack) × Guarded allow stack
          × (deploy_stack [] ≡ apply_stack allow stack []))
  unfolding deploy_stack
  deploy_stack-cases = elim (Option-cases release_guards) [
    | inr (e, k) ↦ inl (ground arith)
    | inl k ↦ elim (Outcome-cases (allow_for b r.daemon.mounts)) [
      | inr (e, m) ↦ inl (ground arith)
      | inl (allow, m) ↦ elim (Outcome-cases (r.convert_unresolved allow)) [
        | inr (e, c) ↦ inl (ground arith)
        | inl (stack, c) ↦ elim (Option-cases (manifest_guards stack)) [
          | inr (e, g) ↦ inl (ground arith)
          | inl g ↦ inr (allow, stack, (k, m, c, g), ground arith)
        ]
      ]
    ]
  ]
