-- ===== src/Tests/Gates.antt =====
-- Concrete runs of the guards before a deploy: backend/backend.go and backend/selfmounts.go.
use swarmcli_cd.Base.{
  ◌≡◌, ◌↔◌, inl, refl, false, none, some, List, [], ◌∷◌, Str, str, ok, seq, elem, cut_prefix,
  compare_str, check_all,
}
use swarmcli_cd.Application.{Allow}
use swarmcli_cd.Prune.Rule.{sort_names, insert_sorted}
use swarmcli_cd.Backend.{
  Labels, Named, Mount, volume_mount, Container, Service, Stack, SelfMounts, Backend, find_label,
  own_mount, scoped_under, in_controllers_stack, reserved_label, external_refs, volume_sources,
  driver_backed,
}
use swarmcli_cd.Backend.Records.{
  Platform, release_config_names, is_release_record, may_be_release_record, named_like_a_record,
}
use swarmcli_cd.Backend.Gate.{
  Daemon, own_declared, volume_holder, creates_volume, held_network, reject_reserved_external,
  check_secret_ref, check_config_ref, not_own_volume, check_volume, check_service,
  check_declared_secret, check_declared_config, check_external_network, check_declared_network,
  reject_forbidden_resources, records,
}
use swarmcli_cd.Backend.Gate.Permitted.{Permitted, reject_forbidden_resources_iff}
use swarmcli_cd.Backend.Gate.Reached.{
  Grantable, NoRecordAmong, mounted_secret-Grantable, mounted_config-NoRecordAmong,
}

abbrev pub ascii : Platform
ascii = record {
  lower = λ c. c;
  fold = λ c. c;
  label_namespace = str "stack";
  label_type = str "type";
  label_release = str "release";
  type_release = str "record";
}

abbrev pub no_allow : Allow
no_allow = record {
  host_paths = [];
  secrets = [];
  configs = str "shared" ∷ [];
  volumes = [];
  networks = [];
}

abbrev pub tenant : Backend
tenant = record { allow = no_allow; self_release = false; forbidden_secrets = str "token" ∷ [] }

abbrev pub own_mounts : SelfMounts
own_mounts = record {
  namespace = str "cd";
  service_id = str "s1";
  secrets = str "token" ∷ [];
  configs = str "apps" ∷ [];
  binds = str "/sock" ∷ [];
  volumes = str "state" ∷ [];
}

abbrev pub web_label : Labels
web_label = (str "stack", str "web") ∷ []

abbrev data_volume : Mount
data_volume = record {
  kind = volume_mount;
  source = str "web_db";
  target = str "/db";
  options = some (record { labels = web_label; driver = none });
}

abbrev pub web_container : Container
web_container = record {
  image = str "web:1";
  command = [];
  args = [];
  env = [];
  secrets = record { name = str "web_pw"; file = none } ∷ [];
  configs = record { name = str "shared"; file = none } ∷ [];
  mounts = data_volume ∷ [];
}

abbrev pub web_service : Service
web_service = record {
  name = str "app";
  scoped_name = str "web_app";
  container = some web_container;
}

abbrev pub web_secret : Named
web_secret = record { name = str "web_pw"; labels = web_label; content = str "x" }

abbrev pub web_stack : Stack
web_stack = record {
  namespace = str "web";
  services = web_service ∷ [];
  networks = record { name = str "web_net"; driver = [] } ∷ [];
  configs = [];
  secrets = web_secret ∷ [];
  external_networks = [];
  external_configs = record { name = str "shared"; labels = []; content = [] } ∷ [];
  external_secrets = [];
}

abbrev pub quiet_daemon : Daemon
quiet_daemon = record {
  mounts = ok own_mounts;
  record_configs = ok [];
  secret_labels = λ n. ok none;
  config_labels = λ n. ok none;
  volume = λ n. ok none;
  networks = ok [];
}

pub web_accepted : reject_forbidden_resources ascii tenant quiet_daemon web_stack ≡ none
unfolding reject_forbidden_resources reject_reserved_external check_service check_secret_ref
    check_config_ref not_own_volume check_volume check_declared_secret check_declared_config
    check_external_network check_declared_network own_declared volume_holder creates_volume
    held_network reserved_label external_refs volume_sources driver_backed own_mount scoped_under
    in_controllers_stack find_label release_config_names is_release_record may_be_release_record
    named_like_a_record sort_names insert_sorted compare_str elem seq cut_prefix check_all
web_accepted = refl

reject_forbidden_resources_iff_example :
    (reject_forbidden_resources ascii tenant quiet_daemon web_stack ≡ none)
    ↔ Permitted ascii tenant quiet_daemon web_stack
reject_forbidden_resources_iff_example =
    reject_forbidden_resources_iff ascii tenant quiet_daemon web_stack

mounted_secret-Grantable_example :
    (mine : SelfMounts) × (quiet_daemon.mounts ≡ ok mine)
    × Grantable ascii tenant quiet_daemon web_stack mine (str "web_pw")
mounted_secret-Grantable_example =
    mounted_secret-Grantable ascii tenant quiet_daemon web_stack (str "web_pw") refl web_accepted
      (web_service, inl refl, (web_container, refl, inl refl))

mounted_config-NoRecordAmong_example :
    (known : List Str) × (records ascii quiet_daemon ≡ ok known)
    × NoRecordAmong ascii tenant quiet_daemon web_stack (str "shared") known
mounted_config-NoRecordAmong_example =
    mounted_config-NoRecordAmong ascii tenant quiet_daemon web_stack (str "shared") web_accepted
      (web_service, inl refl, (web_container, refl, inl refl))
