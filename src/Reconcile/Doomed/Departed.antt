-- ===== src/Reconcile/Doomed/Departed.antt =====
-- reconcile/reconcile.go, departed: the sets that a sweep may delete, release by release.
use swarmcli_cd.Base.{
  ℕ, ltb, Bool, false, not, Option, none, some, List, [], ◌∷◌, ◌++◌, map, Str, str, seq, elem,
  is_empty, keep, leb, if◌then◌else◌, Outcome,
}
use swarmcli_cd.Prune.Rule.{OwnerRef, sort_names, undeclared}
use swarmcli_cd.Backend.{Stack, Container, Mount, volume_mount}
use swarmcli_cd.Reconcile.Doomed.{
  ResourceNames, no_names, is_no_names, declared_names, Revision, claimed,
}
use swarmcli_cd.Reconcile.Doomed.Claimed.{Kind, network, config, secret}

-- A running service: what it runs now, and its previous spec if it keeps one. `none` within is a spec
-- without a container.
pub record Running : Type 0 where
  pub id : Str
  pub now : Option Container
  pub previous : Option (Option Container)

-- What `observe` read of one release: what its manifest declares, and what is live, by name.
pub record ReleaseView : Type 0 where
  pub declared : Option Stack
  pub live : List (Str × Running)
  pub networks : List (Str × Str)
  pub configs : List (Str × Str)
  pub secrets : List (Str × Str)
  pub failed : Bool
  pub resources_failed : Bool

pub record DepartedService : Type 0 where
  pub name : Str
  pub id : Str
  pub volumes : List Str

pub record DepartedResource : Type 0 where
  pub kind : Kind
  pub name : Str
  pub id : Str

pub record DoomedSet : Type 0 where
  pub services : List DepartedService
  pub resources : List DepartedResource
  pub retained : List DepartedResource

-- `map[string]int`
abbrev pub Counts : Type 0
Counts = List (Str × ℕ)

unfoldable pub count_of : Str → Counts → ℕ
count_of key [] = 0
count_of key (kv ∷ rest) = if seq kv.0 key then kv.1 else count_of key rest

abbrev kind_text : Kind → Str
kind_text network = str "network"
kind_text config = str "config"
kind_text secret = str "secret"
kind_text _ = str "service"

unfoldable pub prune_key : Str → DepartedResource → Str
prune_key release res = release ++ (str "/" ++ (kind_text res.kind ++ (str "/" ++ res.name)))

abbrev pub max_prune_attempts : ℕ
max_prune_attempts = 3

abbrev pub keys {ℓ} : {A : Type ℓ} → List (Str × A) → List Str
keys [] = []
keys (kv ∷ rest) = kv.0 ∷ keys rest

-- `m[name]` on a map of ids.
unfoldable pub id_of : Str → List (Str × Str) → Str
id_of name [] = []
id_of name (kv ∷ rest) = let later = id_of name rest in if seq kv.0 name then kv.1 else later

unfoldable pub running_of : Str → List (Str × Running) → Option Running
running_of name [] = none
running_of name (kv ∷ rest) =
    let later = running_of name rest in if seq kv.0 name then some kv.1 else later

-- The containers that a service runs or ran before.
abbrev just {ℓ} : {A : Type ℓ} → Option A → List A
just none = []
just (some a) = a ∷ []

abbrev pub containers_of : Running → List Container
containers_of s = just s.now ++ elim s.previous [ none ↦ [] | some c ↦ just c ]

unfoldable pub config_refs : List Container → List Str
config_refs [] = []
config_refs (c ∷ cs) = map (λ r. r.name) c.configs ++ config_refs cs

unfoldable pub secret_refs : List Container → List Str
secret_refs [] = []
secret_refs (c ∷ cs) = map (λ r. r.name) c.secrets ++ secret_refs cs

unfoldable pub live_containers : List (Str × Running) → List Container
live_containers [] = []
live_containers (kv ∷ rest) = containers_of kv.1 ++ live_containers rest

-- The two sets of `inUse`.
unfoldable pub in_use : List (Str × Running) → List Str × List Str
unfolding config_refs secret_refs live_containers
in_use live = (config_refs (live_containers live), secret_refs (live_containers live))

unfoldable pub unused : List Str → List Str → List Str
unused candidates used = keep (λ n. not (elem n used)) candidates

abbrev pub names_of_view : Option Stack → ResourceNames
names_of_view none = no_names
names_of_view (some stack) = declared_names stack

-- What runs and is not declared; the other three kinds only if they could be listed.
unfoldable pub candidates : ReleaseView → ResourceNames
candidates v =
    let declared = names_of_view v.declared in
    let services = undeclared (keys v.live) declared.services in
    if v.resources_failed
    then record { services = services; networks = []; configs = []; secrets = [] }
    else record {
      services = services;
      networks = undeclared (keys v.networks) declared.networks;
      configs = unused (undeclared (keys v.configs) declared.configs) (in_use v.live).0;
      secrets = unused (undeclared (keys v.secrets) declared.secrets) (in_use v.live).1;
    }

abbrev is_volume : Mount → Bool
is_volume m = elim m.kind [ volume_mount ↦ not (is_empty m.source) | _ ↦ false ]

unfoldable pub mounted_volumes : Option Container → List Str
mounted_volumes none = []
mounted_volumes (some cs) = sort_names (map (λ m. m.source) (keep is_volume cs.mounts))

abbrev departed_of : Str → Option Running → DepartedService
departed_of name none = record { name = name; id = []; volumes = [] }
departed_of name (some s) = record { name = name; id = s.id; volumes = mounted_volumes s.now }

abbrev pub departed_service : ReleaseView → Str → DepartedService
departed_service v name = departed_of name (running_of name v.live)

-- `doomedSet.add`
unfoldable pub add_doomed :
    Counts → Str → DepartedResource → DoomedSet × Counts → DoomedSet × Counts
add_doomed was release res (set, still) =
    let n = count_of (prune_key release res) was in
    (
      if leb max_prune_attempts n
          then record set { retained = set.retained ++ (res ∷ []) }
          else record set { resources = set.resources ++ (res ∷ []) },
      if ltb 0 n then (prune_key release res, n) ∷ still else still,
    )

unfoldable pub add_all_doomed :
    Counts → Str → List DepartedResource → DoomedSet × Counts → DoomedSet × Counts
add_all_doomed was release [] st = st
add_all_doomed was release (res ∷ rest) st =
    add_all_doomed was release rest (add_doomed was release res st)

abbrev pub resources_of : Kind → List (Str × Str) → List Str → List DepartedResource
resources_of k ids [] = []
resources_of k ids (n ∷ ns) =
    record { kind = k; name = n; id = id_of n ids } ∷ resources_of k ids ns

-- Configs, then secrets, then networks, in the order in which they are removed.
abbrev pub all_resources : ReleaseView → ResourceNames → List DepartedResource
all_resources v proved =
    resources_of config v.configs proved.configs
    ++ (resources_of secret v.secrets proved.secrets
        ++ resources_of network v.networks proved.networks)

abbrev pub no_resources : ReleaseView → ResourceNames → DoomedSet
no_resources v proved = record {
  services = map (departed_service v) proved.services;
  resources = [];
  retained = [];
}

-- The set of one release, from the names that are proved.
unfoldable pub doomed_set : Counts → Str → ReleaseView → ResourceNames → Counts → DoomedSet × Counts
doomed_set was release v proved still =
    add_all_doomed was release (all_resources v proved) (no_resources v proved, still)

module _ (parse_owner : Str → Option OwnerRef) (kind_release controller app : Str)
    (read_declared : Revision → Outcome Str Stack)
    (history : Str → Outcome Str (List Revision)) where
  abbrev pub proved_of : Str → ReleaseView → ResourceNames
  proved_of release v =
      claimed parse_owner kind_release controller app read_declared (history release) (candidates v)

  -- One round of the loop, with its three `continue`s.
  unfoldable pub departed_release :
      Counts
      → Str
      → Option ReleaseView
      → List (Str × DoomedSet) × Counts
      → List (Str × DoomedSet) × Counts
  departed_release was release none st = st
  departed_release was release (some v) (out, still) =
      let (set, still') = doomed_set was release v (proved_of release v) still in
      if v.failed
      then (out, still)
      else if is_no_names (candidates v)
      then (out, still)
      else if is_no_names (proved_of release v)
      then (out, still)
      else (out ++ ((release, set) ∷ []), still')

  unfoldable pub departed_loop :
      Counts
      → (Str → Option ReleaseView)
      → List Str
      → List (Str × DoomedSet) × Counts
      → List (Str × DoomedSet) × Counts
  departed_loop was views [] st = st
  departed_loop was views (release ∷ rest) st =
      departed_loop was views rest (departed_release was release (views release) st)

  -- `was` holds the failures that are remembered; the second result replaces them.
  unfoldable pub departed :
      Counts → (Str → Option ReleaseView) → List Str → List (Str × DoomedSet) × Counts
  departed was views releases = departed_loop was views releases ([], [])
