-- ===== src/Backend/Deploy.antt =====
-- The writes of a deploy: DeployStack of backend/backend.go, and what it calls of backend/resource.go
-- and backend/service.go. The daemon is not modelled: each write is an event, and the answer to a call
-- is any function of the events so far.

pub mod Apply
pub mod Guarded
pub mod Ordered
pub mod Orderly
pub mod Marked
pub mod Relabelled
pub mod Retries
use swarmcli_cd.Base.{
  ℕ, suc, Bool, true, false, not, ◌&&◌, ◌||◌, Option, none, some, List, [], ◌∷◌, ◌++◌, map, Str,
  str, seq, is_empty, keep, if◌then◌else◌, Outcome, ok, err,
}
use swarmcli_cd.Application.{Allow}
use swarmcli_cd.Owner.{scoped}
use swarmcli_cd.Prune.Rule.{sort_names}
use swarmcli_cd.Backend.{
  Labels, Named, Network, Service, Stack, SelfMounts, Backend, Container, find_label,
}
use swarmcli_cd.Backend.Records.{Platform}
use swarmcli_cd.Backend.Gate.{GateError}
use swarmcli_cd.Backend.Self.{SelfError, LiveService}
use swarmcli_cd.Backend.Collision.{CollisionError}

-- A service as the daemon holds it: its id, the image label of its last deploy, its image and its
-- `ForceUpdate` counter.
pub record Current : Type 0 where
  pub id : Str
  pub image_label : Str
  pub image : Option Str
  pub force_update : ℕ

-- What an update sends: the image, the counter and `QueryRegistry`.
pub record Update : Type 0 where
  pub image : Option Str
  pub force_update : ℕ
  pub query : Bool

pub data Event : Type 0 where
  network_create : Network → Event
  secret_create secret_update config_create config_update : Named → Event
  service_create : Str → Bool → Event
  service_update : Str → Update → Event
  hold_self out_of_band : Str → Event

-- The newest event first.
abbrev pub Trace : Type 0
Trace = List Event

pub data WriteError : Type 0 where
  conflict : WriteError
  failed : Str → WriteError

pub data DeployError : Type 0 where
  self : SelfError → DeployError
  collision : CollisionError → DeployError
  gate : GateError → DeployError
  unreadable unwritten converting : Str → DeployError
  different_content unpermitted foreign_namespace changed_underneath : Str → DeployError

-- What answers the calls. `write` answers the event at the head of the trace, `none` for success;
-- `auth` is the credential for an image.
pub record Answers : Type 0 where
  pub stack_networks : Trace → Outcome Str (List Str)
  pub secret : Trace → Str → Outcome Str (Option Labels)
  pub config : Trace → Str → Outcome Str (Option Named)
  pub stack_services : Trace → Outcome Str (List (Str × Current))
  pub records_of : Trace → Str → Outcome Str (List Named)
  pub inspect : Trace → Str → Outcome Str Current
  pub auth : Option Str → Outcome Str Str
  pub time : Trace → Str
  pub write : Trace → Option WriteError

-- The error of a step, if any, and the events so far.
abbrev pub Result : Type 0
Result = Option DeployError × Trace

-- A step, and the next one if it returned no error.
abbrev pub and_then : Result → (Trace → Result) → Result
and_then (none, tr) next = next tr
and_then (some e, tr) next = (some e, tr)

-- A loop that returns the first error.
unfoldable pub each : {A : Type 0} → (A → Trace → Result) → List A → Trace → Result
each f [] tr = (none, tr)
each f (x ∷ xs) tr = and_then (f x tr) (each f xs)

-- `v, err := read(); if err != nil { return err }`
abbrev pub reading : {A : Type 0} → Outcome Str A → (A → Trace → Result) → Trace → Result
reading (ok a) next tr = next a tr
reading (err e) next tr = (some (unreadable e), tr)

abbrev text_of : WriteError → Str
text_of conflict = str "conflict"
text_of (failed e) = e

abbrev pub answered : Trace → Option WriteError → Result
answered tr none = (none, tr)
answered tr (some e) = (some (unwritten (text_of e)), tr)

unfoldable pub writing : Answers → Event → Trace → Result
writing w ev tr = answered (ev ∷ tr) (w.write (ev ∷ tr))

abbrev pub created_label : Str
created_label = str "com.swarmcli.cd.created"

-- `out := maps.Copy(labels); out[key] = v`
unfoldable pub set_label : Str → Str → Labels → Labels
set_label key v [] = (key, v) ∷ []
set_label key v (kv ∷ rest) =
    let later = set_label key v rest in if seq kv.0 key then (key, v) ∷ rest else kv ∷ later

unfoldable pub stamp_created : Str → Labels → Labels
stamp_created now labels = set_label created_label now labels

unfoldable pub keep_created : Labels → Labels → Labels
keep_created labels current = elim (find_label created_label current) [
  | none ↦ labels
  | some v ↦ set_label created_label v labels
]
