-- ===== src/Backend/Gate.antt =====
-- backend/backend.go, rejectForbiddenResources and what it calls: the guard that refuses a stack
-- before anything of it is created.
pub mod Declared
pub mod Names
pub mod Permitted
pub mod Reached
pub mod Refs
use swarmcli_cd.Base.{
  ℕ, ◌≡◌, Bool, true, false, not, ◌&&◌, ◌||◌, Option, none, some, List, [], ◌∷◌, Str, seq, elem,
  is_empty, keep, if◌then◌else◌, Outcome, ok, err, refuse, ◌then◌, check_all, given,
}
use swarmcli_cd.Application.{Allow}
use swarmcli_cd.Backend.{
  Labels, Named, Mount, LocalVolume, SwarmNetwork, Service, Stack, SelfMounts, Backend, label_at,
  permits, own_mount, scoped_under, in_controllers_stack, reserved_label, external_refs,
  volume_sources, driver_backed,
}
use swarmcli_cd.Backend.Records.{
  Platform, lower_case, equal_fold, release_config_names, named_like_a_record,
}

pub data Kind : Type 0 where
  secret config : Kind

pub data What : Type 0 where
  release_record controllers_own : What

-- A constructor for each message, less the kind of what a service mounts.
pub data GateError : Type 0 where
  unreadable : Str → GateError
  mounts_forbidden mounts_unpermitted : Str → Str → GateError
  mounts_driver_unpermitted mounts_foreign_volume : Str → Str → GateError
  mounts_held_volume : Str → Str → Str → GateError
  declares_reserved_label : Kind → Str → Str → GateError
  declares_reserved_external declares_unpermitted : Kind → Str → GateError
  declares_forbidden : Kind → Str → What → GateError
  joins_unpermitted joins_forbidden declares_held_network : Str → GateError

-- The daemon's answers while the guard runs. `none` is "not found".
pub record Daemon : Type 0 where
  pub mounts : Outcome Str SelfMounts
  pub record_configs : Outcome Str (List Named)
  pub secret_labels : Str → Outcome Str (Option Labels)
  pub config_labels : Str → Outcome Str (Option Labels)
  pub volume : Str → Outcome Str (Option LocalVolume)
  pub networks : Outcome Str (List SwarmNetwork)

abbrev pub records : Platform → Daemon → Outcome Str (List Str)
records pf d = release_config_names pf d.record_configs

-- `held[convert.LabelNamespace] == ns`, where something holds the name.
abbrev pub is_ours : Platform → Str → Option Labels → Bool
is_ours pf ns none = true
is_ours pf ns (some held) = seq (label_at pf.label_namespace held) ns

-- The answer that `ownDeclared` gives, as the refusal of a declaration that is not the release's own.
unfoldable pub own_declared : Platform → Str → Outcome Str (Option Labels) → Str → Outcome Str Bool
own_declared pf ns held name =
    if not (scoped_under ns name)
    then ok false
    else elim held [ ok h ↦ ok (is_ours pf ns h) | err e ↦ err e ]

-- A cluster volume holds no name that a volume mount would use.
unfoldable pub volume_holder : Platform → Outcome Str (Option LocalVolume) → Outcome Str Str
volume_holder pf (ok none) = ok []
volume_holder pf (ok (some v)) =
    ok (if v.is_cluster then [] else label_at pf.label_namespace v.labels)
volume_holder pf (err e) = err e

unfoldable pub creates_volume : Platform → Mount → Bool
creates_volume pf m = elim m.options [
  | none ↦ false
  | some o ↦ not (is_empty (label_at pf.label_namespace o.labels))
]

abbrev pub swarm_networks : List SwarmNetwork → List SwarmNetwork
swarm_networks = keep (λ n. n.is_swarm_scoped)

unfoldable pub held_network : Platform → List SwarmNetwork → Str → Option Labels
held_network pf [] name = none
held_network pf (n ∷ ns) name =
    let rest = held_network pf ns name in if equal_fold pf n.name name then some n.labels else rest

module _ (pf : Platform) where
  abbrev reject_label : Kind → Named → Option GateError
  reject_label kind spec = elim (reserved_label spec.labels) [
    | none ↦ none
    | some key ↦ some (declares_reserved_label kind spec.name key)
  ]

  unfoldable pub reject_reserved_external : Kind → Named → Option GateError
  reject_reserved_external kind ext =
      reject_label kind ext
      then refuse (named_like_a_record pf ext.name) (declares_reserved_external kind ext.name)

  module _ (b : Backend) (d : Daemon) where
    module _ (mine : SelfMounts) where
      unfoldable pub check_secret_ref : Str → Str → Option GateError
      check_secret_ref svc name =
          if own_mount b mine.secrets name
          then none
          else (refuse (elem name b.forbidden_secrets || elem name mine.secrets)
                (mounts_forbidden svc name)
              then refuse (not (permits b.allow.secrets name)) (mounts_unpermitted svc name))

      abbrev own_or_permitted_config : Str → Str → Option GateError
      own_or_permitted_config svc name =
          if own_mount b mine.configs name
          then none
          else (refuse (elem name mine.configs) (mounts_forbidden svc name)
              then refuse (not (permits b.allow.configs name)) (mounts_unpermitted svc name))

      -- What follows the listing of the records, for a config that a service references.
      abbrev pub config_ref : Str → Str → List Str → Option GateError
      config_ref svc name known =
          refuse (elem (lower_case pf name) known) (mounts_forbidden svc name)
          then own_or_permitted_config svc name

      unfoldable pub check_config_ref : Str → Str → Option GateError
      check_config_ref svc name = given unreadable (records pf d) (config_ref svc name)

      -- What follows the reading of the label that holds a volume's name.
      abbrev pub held_volume : Str → Str → Str → Str → Option GateError
      held_volume ns svc name holder =
          refuse (not (seq holder ns) && scoped_under holder name)
            (mounts_held_volume svc name holder)

      unfoldable pub not_own_volume : Str → Str → Str → Option GateError
      not_own_volume ns svc name =
          refuse (not (scoped_under ns name)) (mounts_foreign_volume svc name)
          then given unreadable (volume_holder pf (d.volume name)) (held_volume ns svc name)

      -- A volume that is not the controller's: another's by permission, or the stack's own.
      abbrev permitted_volume : Str → List Str → Str → Mount → Option GateError
      permitted_volume ns driven svc m =
          if not (creates_volume pf m)
          then refuse (not (permits b.allow.volumes m.source)) (mounts_unpermitted svc m.source)
          else (not_own_volume ns svc m.source
              then refuse (elem m.source driven && not (permits b.allow.volumes m.source))
                  (mounts_driver_unpermitted svc m.source))

      unfoldable pub check_volume : Str → List Str → Str → Mount → Option GateError
      check_volume ns driven svc m =
          if own_mount b mine.volumes m.source
          then none
          else (refuse (elem m.source mine.volumes) (mounts_forbidden svc m.source)
              then permitted_volume ns driven svc m)

      unfoldable pub check_service : Stack → Service → Option GateError
      check_service stack svc =
          check_all (check_secret_ref svc.name) (external_refs stack svc).0
          then check_all (check_config_ref svc.name) (external_refs stack svc).1
          then check_all (check_volume stack.namespace (driver_backed svc) svc.name)
              (volume_sources svc)

      abbrev pub refuse_foreign : Kind → Str → Bool → Option GateError
      refuse_foreign kind name own = refuse (not own) (declares_unpermitted kind name)

      -- What a declaration has to be: permitted by its name, or the stack's own.
      abbrev pub check_own :
          Kind → Str → List Str → Outcome Str (Option Labels) → Str → Option GateError
      check_own kind ns allowed held name =
          if permits allowed name
          then none
          else given unreadable (own_declared pf ns held name) (refuse_foreign kind name)

      unfoldable pub check_declared_secret : Str → Named → Option GateError
      check_declared_secret ns spec =
          reject_label secret spec
          then refuse (named_like_a_record pf spec.name)
              (declares_forbidden secret spec.name release_record)
          then refuse (elem spec.name b.forbidden_secrets || elem spec.name mine.secrets)
              (declares_forbidden secret spec.name controllers_own)
          then check_own secret ns b.allow.secrets (d.secret_labels spec.name) spec.name

      -- What follows the listing of the records, for a config that the stack declares.
      abbrev pub unrecorded : Str → Named → List Str → Option GateError
      unrecorded ns spec known =
          refuse (elem (lower_case pf spec.name) known)
            (declares_forbidden config spec.name release_record)
          then check_own config ns b.allow.configs (d.config_labels spec.name) spec.name

      unfoldable pub check_declared_config : Str → Named → Option GateError
      check_declared_config ns spec =
          reject_label config spec
          then refuse (named_like_a_record pf spec.name)
              (declares_forbidden config spec.name release_record)
          then refuse (elem spec.name mine.configs)
              (declares_forbidden config spec.name controllers_own)
          then given unreadable (records pf d) (unrecorded ns spec)

      unfoldable pub check_external_network : Str → Option GateError
      check_external_network name =
          if in_controllers_stack mine.namespace name
          then refuse (not b.self_release) (joins_forbidden name)
          else refuse (not (permits b.allow.networks name)) (joins_unpermitted name)

      -- What follows the listing of the networks.
      abbrev pub joinable : Str → Str → List SwarmNetwork → Option GateError
      joinable ns name all =
          refuse (not (is_ours pf ns (held_network pf (swarm_networks all) name)))
            (declares_held_network name)
          then refuse (not (scoped_under ns name) && not (permits b.allow.networks name))
              (joins_unpermitted name)

      unfoldable pub check_declared_network : Str → Str → Option GateError
      check_declared_network ns name =
          if in_controllers_stack mine.namespace name
          then refuse (not b.self_release) (joins_forbidden name)
          else given unreadable d.networks (joinable ns name)

    unfoldable pub reject_forbidden_resources : Stack → Option GateError
    reject_forbidden_resources stack = given unreadable d.mounts λ mine.
        check_all (reject_reserved_external secret) stack.external_secrets
        then check_all (reject_reserved_external config) stack.external_configs
        then check_all (check_service mine stack) stack.services
        then check_all (check_declared_secret mine stack.namespace) stack.secrets
        then check_all (check_declared_config mine stack.namespace) stack.configs
        then check_all (check_external_network mine) stack.external_networks
        then check_all (λ nw. check_declared_network mine stack.namespace nw.name) stack.networks
