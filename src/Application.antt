-- ===== src/Application.antt =====
-- application/application.go and application/enum.go: what an application asks for, and the states
-- that it is reported in.
use swarmcli_cd.Base.{ℕ, Bool, Option, List, Str}

-- application/enum.go. Each Unknown member is Go's empty string.
pub data HealthState : Type 0 where
  health_unknown healthy progressing degraded missing : HealthState

pub data SyncState : Type 0 where
  sync_unknown synced out_of_sync : SyncState

pub record ServiceCounts : Type 0 where
  pub healthy_count : ℕ
  pub total : ℕ

pub record Health : Type 0 where
  pub state : HealthState
  pub message : Str
  pub services : ServiceCounts

pub record ServiceStatus : Type 0 where
  pub name : Str
  pub mode : Str
  pub running : ℕ
  pub desired : ℕ
  pub completed : ℕ
  pub health : HealthState
  pub update_state : Str
  pub message : Str

-- What the rollup reads of an application.ReleaseStatus.
pub record ReleaseHealth : Type 0 where
  pub name : Str
  pub health : Health

-- application/enum.go: what applications.yaml may ask for; `drift_unknown` is the empty string, and
-- `drift_other` a value that this build does not implement.
pub data DriftDetection : Type 0 where
  drift_unknown drift_manifest drift_live : DriftDetection
  drift_other : Str → DriftDetection

-- application/application.go: RepositorySpec, ChartSource, Source, Allow and SyncPolicy. Durations
-- and the history limit are Go's signed integers, as a sign and a magnitude.
pub record RepositorySpec : Type 0 where
  pub name : Str
  pub url : Str

pub record ChartSource : Type 0 where
  pub release : Str
  pub path : Str
  pub ref : Str
  pub version : Str
  pub values : List Str
  pub repositories : List RepositorySpec

pub record Source : Type 0 where
  pub repo_url : Str
  pub revision : Str
  pub release_file : Str
  pub chart : Option ChartSource

pub record Allow : Type 0 where
  pub host_paths : List Str
  pub secrets : List Str
  pub configs : List Str
  pub volumes : List Str
  pub networks : List Str

-- A signed integer as far as the code asks: whether it is below 0, and how far from 0 it is.
pub record Signed : Type 0 where
  pub is_negative : Bool
  pub magnitude : ℕ

pub record SyncPolicy : Type 0 where
  pub automated : Bool
  pub interval : Signed
  pub waits : Bool
  pub timeout : Signed
  pub history_max : Option Signed
  pub prune : Bool
  pub prune_volumes : Bool
  pub prune_resources : Bool
  pub prune_first : Bool

pub record Spec : Type 0 where
  pub name : Str
  pub source : Source
  pub registry_auth : Str
  pub self : Bool
  pub allow : Allow
  pub swarm : Str
  pub sync_policy : SyncPolicy
  pub drift_detection : DriftDetection

-- What the app-set loop reads of an application.View.
pub record View : Type 0 where
  pub spec : Spec
  pub sync : SyncState
  pub releases : List Str
