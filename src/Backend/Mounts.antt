-- ===== src/Backend/Mounts.antt =====
-- backend/selfmounts.go: what the controller's own service mounts, read once and remembered.
pub mod Covered
use swarmcli_cd.Base.{
  Bool, true, false, not, ◌||◌, Option, none, some, List, [], ◌∷◌, ◌++◌, map, Str, str, has_prefix,
  is_empty, if◌then◌else◌, Outcome, ok, err,
}
use swarmcli_cd.Backend.{
  Labels, Mount, MountKind, bind_mount, volume_mount, cluster_mount, other_mount, Container,
  SelfMounts, find_label, label_at,
}
use swarmcli_cd.Backend.Records.{Platform}

pub record OwnService : Type 0 where
  pub id : Str
  pub labels : Labels
  pub container : Option Container

-- The daemon's answers, `none` for "not found": the labels of this container (`none` within for a
-- container without a config), the service, and the group of a cluster volume by its source (the
-- empty text for no group and for a volume that is none).
pub record SelfReads : Type 0 where
  pub hostname : Outcome Str Str
  pub container : Str → Outcome Str (Option (Option Labels))
  pub service : Str → Outcome Str (Option OwnService)
  pub group : Str → Outcome Str (Option Str)

abbrev pub no_mounts : SelfMounts
no_mounts = record {
  namespace = [];
  service_id = [];
  secrets = [];
  configs = [];
  binds = [];
  volumes = [];
}

abbrev service_id_label : Str
service_id_label = str "com.docker.swarm.service.id"

abbrev pub group_prefix : Str
group_prefix = str "group:"

module _ (pf : Platform) (r : SelfReads) where
  abbrev group_names : Option Str → List Str
  group_names none = []
  group_names (some g) = if is_empty g then [] else (group_prefix ++ g) ∷ []

  abbrev pub named_groups : Outcome Str (Option Str) → Outcome Str (List Str)
  named_groups (ok g) = ok (group_names g)
  named_groups (err e) = err e

  -- What the daemon has to be asked about a mount: the group of a cluster volume named by itself.
  abbrev pub groups_of : Mount → Outcome Str (List Str)
  groups_of m = elim m.kind [
    | cluster_mount ↦
        if is_empty m.source || has_prefix m.source group_prefix
        then ok []
        else named_groups (r.group m.source)
    | _ ↦ ok []
  ]

  abbrev one_unless_empty : Str → List Str
  one_unless_empty s = if is_empty s then [] else s ∷ []

  -- The two cases of the switch in the loop over the mounts.
  abbrev pub volumes_of : Mount → List Str
  volumes_of m = elim m.kind [
    | volume_mount ↦ one_unless_empty m.source
    | cluster_mount ↦ one_unless_empty m.source
    | _ ↦ []
  ]

  abbrev pub binds_of : Mount → List Str
  binds_of m = elim m.kind [ bind_mount ↦ one_unless_empty m.source | _ ↦ [] ]

  abbrev pub with_mount : Mount → List Str → SelfMounts → SelfMounts
  with_mount m groups out = record out {
    volumes = groups ++ (volumes_of m ++ out.volumes);
    binds = binds_of m ++ out.binds;
  }

  abbrev pub add_mount :
      Mount
      → Outcome Str (List Str)
      → (SelfMounts → Outcome Str SelfMounts)
      → SelfMounts
      → Outcome Str SelfMounts
  add_mount m (err e) next out = err e
  add_mount m (ok groups) next out = next (with_mount m groups out)

  unfoldable pub add_mounts : List Mount → SelfMounts → Outcome Str SelfMounts
  add_mounts [] out = ok out
  add_mounts (m ∷ ms) out = add_mount m (groups_of m) (add_mounts ms) out

  -- What is known before the loop over the mounts.
  abbrev pub labelled : OwnService → SelfMounts
  labelled svc = record no_mounts {
    namespace = label_at pf.label_namespace svc.labels;
    service_id = svc.id;
  }

  abbrev pub referenced : OwnService → Container → SelfMounts
  referenced svc cs = record (labelled svc) {
    secrets = map (λ s. s.name) cs.secrets;
    configs = map (λ c. c.name) cs.configs;
  }

  unfoldable pub mounts_of_service : OwnService → Outcome Str SelfMounts
  mounts_of_service svc = elim svc.container [
    | none ↦ ok (labelled svc)
    | some cs ↦ add_mounts cs.mounts (referenced svc cs)
  ]

  abbrev of_service : Outcome Str (Option OwnService) → Outcome Str SelfMounts
  of_service (err e) = err e
  of_service (ok none) = ok no_mounts
  of_service (ok (some svc)) = mounts_of_service svc

  abbrev of_labels : Option Labels → Outcome Str SelfMounts
  of_labels none = ok no_mounts
  of_labels (some labels) =
      let id = label_at service_id_label labels in
      if is_empty id then ok no_mounts else of_service (r.service id)

  abbrev of_container : Outcome Str (Option (Option Labels)) → Outcome Str SelfMounts
  of_container (err e) = err e
  of_container (ok none) = ok no_mounts
  of_container (ok (some labels)) = of_labels labels

  unfoldable pub read_self_mounts : Outcome Str SelfMounts
  read_self_mounts = elim r.hostname [ err e ↦ err e | ok host ↦ of_container (r.container host) ]

-- `mounts`: the remembered value, or the answer of a read, which is remembered if it is no error.
unfoldable pub cached_mounts :
    Option SelfMounts → Outcome Str SelfMounts → Outcome Str SelfMounts × Option SelfMounts
cached_mounts (some val) answer = (ok val, some val)
cached_mounts none (err e) = (err e, none)
cached_mounts none (ok val) = (ok val, some val)

-- A sequence of calls, each with what a read at that moment would answer.
unfoldable pub cached_run :
    Option SelfMounts
    → List (Outcome Str SelfMounts)
    → List (Outcome Str SelfMounts) × Option SelfMounts
unfolding cached_mounts
cached_run val [] = ([], val)
cached_run val (a ∷ as') =
    let (out, val') = cached_mounts val a in
    let (outs, last) = cached_run val' as' in (out ∷ outs, last)
