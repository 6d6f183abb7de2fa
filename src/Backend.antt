-- ===== src/Backend.antt =====
-- backend/backend.go: what a deploy is about, what the daemon answers, and the names and labels that
-- the guards before a deploy compare.
pub mod Records
pub mod Gate
pub mod Self
pub mod Mounts
pub mod Remove
pub mod Deploy
pub mod Collision
use swarmcli_cd.Base.{
  ℕ, Bool, true, false, not, ◌&&◌, ◌||◌, Option, none, some, List, [], ◌∷◌, ◌++◌, map, Str, str,
  seq, elem, has_prefix, is_empty, keep, if◌then◌else◌, Outcome, ok, err,
}
use swarmcli_cd.Application.{Allow}
use swarmcli_cd.Owner.{to_lower, underscore}
use swarmcli_cd.Prune.Rule.{sort_names}

-- Go's `map[string]string`, a key at most once.
abbrev pub Labels : Type 0
Labels = List (Str × Str)

-- `_, ok := labels[key]`
unfoldable pub find_label : Str → Labels → Option Str
find_label key [] = none
find_label key (kv ∷ rest) = if seq kv.0 key then some kv.1 else find_label key rest

-- `labels[key]`, the empty text where there is none.
abbrev pub label_at : Str → Labels → Str
label_at key labels = elim (find_label key labels) [ none ↦ [] | some v ↦ v ]

-- The daemon's types, as far as the code reads them: a secret, a config or the annotations of one
-- (which have no content), and what a service's container mounts.
pub record Named : Type 0 where
  pub name : Str
  pub labels : Labels
  pub content : Str

pub data MountKind : Type 0 where
  bind_mount volume_mount cluster_mount other_mount : MountKind

pub record Driver : Type 0 where
  pub name : Str
  pub options : Labels

pub record VolumeOptions : Type 0 where
  pub labels : Labels
  pub driver : Option Driver

pub record Mount : Type 0 where
  pub kind : MountKind
  pub source : Str
  pub target : Str
  pub options : Option VolumeOptions

-- A secret or a config that a container mounts, with the file it appears as.
pub record Reference : Type 0 where
  pub name : Str
  pub file : Option Str

pub record Container : Type 0 where
  pub image : Str
  pub command : List Str
  pub args : List Str
  pub env : List Str
  pub secrets : List Reference
  pub configs : List Reference
  pub mounts : List Mount

pub record LocalVolume : Type 0 where
  pub labels : Labels
  pub is_cluster : Bool

pub record SwarmNetwork : Type 0 where
  pub name : Str
  pub is_swarm_scoped : Bool
  pub labels : Labels

-- compose/compose.go: Network, Service and Stack. `scoped_name` is `Spec.Name`.
pub record Network : Type 0 where
  pub name : Str
  pub driver : Str

pub record Service : Type 0 where
  pub name : Str
  pub scoped_name : Str
  pub container : Option Container

pub record Stack : Type 0 where
  pub namespace : Str
  pub services : List Service
  pub networks : List Network
  pub configs : List Named
  pub secrets : List Named
  pub external_networks : List Str
  pub external_configs : List Named
  pub external_secrets : List Named

-- backend/selfmounts.go: what this controller's own service mounts.
pub record SelfMounts : Type 0 where
  pub namespace : Str
  pub service_id : Str
  pub secrets : List Str
  pub configs : List Str
  pub binds : List Str
  pub volumes : List Str

pub record Backend : Type 0 where
  pub allow : Allow
  pub self_release : Bool
  pub forbidden_secrets : List Str

abbrev pub reserved_label_prefix : Str
reserved_label_prefix = str "com.swarmcli."

abbrev pub release_record_prefix : Str
release_record_prefix = str "swarmcli.release."

-- `slices.Contains(allowed, name)`
abbrev pub permits : List Str → Str → Bool
permits allowed name = elem name allowed

unfoldable pub own_mount : Backend → List Str → Str → Bool
own_mount b mine name = b.self_release && elem name mine

unfoldable pub scoped_under : Str → Str → Bool
scoped_under namespace name =
    not (is_empty namespace) && has_prefix name (namespace ++ (underscore ∷ []))

unfoldable pub in_controllers_stack : Str → Str → Bool
in_controllers_stack namespace name =
    not (is_empty namespace) && (seq name namespace || scoped_under namespace name)

-- The first key with the reserved prefix.
abbrev pub first_reserved : List Str → Option Str
first_reserved [] = none
first_reserved (k ∷ ks) =
    let rest = first_reserved ks in if has_prefix k reserved_label_prefix then some k else rest

unfoldable pub reserved_label : Labels → Option Str
reserved_label labels = first_reserved (sort_names (map (λ kv. kv.0) labels))

-- The two names that one service's container mounts and the stack does not declare.
abbrev pub names_of : List Named → List Str
names_of = map (λ s. s.name)

abbrev pub undeclared_refs : List Str → List Reference → List Str
undeclared_refs declared refs = keep (λ n. not (elem n declared)) (map (λ r. r.name) refs)

unfoldable pub external_refs : Stack → Service → List Str × List Str
external_refs stack svc = elim svc.container [
  | none ↦ ([], [])
  | some c ↦ (
    undeclared_refs (names_of stack.secrets) c.secrets,
    undeclared_refs (names_of stack.configs) c.configs,
  )
]

-- The volume and cluster mounts that name a source.
abbrev names_volume : Mount → Bool
names_volume m = elim m.kind [
  | volume_mount ↦ not (is_empty m.source)
  | cluster_mount ↦ not (is_empty m.source)
  | _ ↦ false
]

unfoldable pub volume_sources : Service → List Mount
volume_sources svc = elim svc.container [ none ↦ [] | some c ↦ keep names_volume c.mounts ]

-- `(d.Name != "" && d.Name != "local") || len(d.Options) > 0`
abbrev is_driven : Driver → Bool
is_driven d = (not (is_empty d.name) && not (seq d.name (str "local"))) || not (is_empty d.options)

abbrev has_driver : Mount → Bool
has_driver m = elim m.kind [
  | volume_mount ↦ elim m.options [
    | none ↦ false
    | some o ↦ elim o.driver [ none ↦ false | some d ↦ is_driven d ]
  ]
  | _ ↦ false
]

unfoldable pub driver_backed : Service → List Str
driver_backed svc = elim svc.container [
  | none ↦ []
  | some c ↦ map (λ m. m.source) (keep has_driver c.mounts)
]
