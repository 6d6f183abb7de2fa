-- ===== src/Tests/Deploys.antt =====
-- Concrete runs of a deploy and of a removal: backend/backend.go, resource.go, service.go and
-- selfmounts.go.
use swarmcli_cd.Base.{
  All, ◌≡◌, ◌↔◌, ◌⊎◌, inl, inr, refl, sym, subst, true, false, none, some, List, [], ◌∷◌, Str, str,
  In, Outcome, ok, err, seq, elem, cut_prefix, check_all,
}
use swarmcli_cd.Application.{Allow}
use swarmcli_cd.Backend.{
  Labels, Named, bind_mount, Container, Stack, SelfMounts, Backend, find_label,
}
use swarmcli_cd.Backend.Records.{may_be_release_record}
use swarmcli_cd.Backend.Collision.{reject_recorded_collision}
use swarmcli_cd.Backend.Collision.Listed.{by_prefix}
use swarmcli_cd.Backend.Collision.Apart.{
  Nowhere, Somewhere, Clash, Own, Extends, Written, reject_recorded_collision_iff,
}
use swarmcli_cd.Backend.Self.{
  Images, LiveService, service_named, flag_value, env_value, secret_at, mounted_secret_for,
  mounts_config_at, mounts_path_at, bind_sources, check_flag, check_app_set_source, without_digest,
  same_image, image_version, is_older, check_self_version, check_replacement, reject_self_loss,
  reject_own_namespace,
}
use swarmcli_cd.Backend.Self.Kept.{Replaced, reject_self_loss-Replaced}
use swarmcli_cd.Backend.Deploy.{Current, Answers, conflict, created_label}
use swarmcli_cd.Backend.Deploy.Guarded.{Reads, deploy_stack, Guarded}
use swarmcli_cd.Backend.Deploy.Orderly.{Orderly, deploy_stack-Orderly}
use swarmcli_cd.Backend.Deploy.Marked.{Marks, deploy_stack-Marks}
use swarmcli_cd.Backend.Remove.{Replies, not_found, remove_stack, remove_sorts, remove_items}
use swarmcli_cd.Backend.Remove.Settled.{
  Foreign, AllListed, Done, remove_stack-AllListed, remove_stack-Done,
}
use swarmcli_cd.Backend.Mounts.{OwnService, SelfReads, mounts_of_service, add_mounts}
use swarmcli_cd.Backend.Mounts.Covered.{Covers, mounts_of_service-Covers}
use swarmcli_cd.Tests.Gates.{
  ascii, tenant, own_mounts, quiet_daemon, web_stack, web_label, web_container,
}

abbrev recorded : Named
recorded = record {
  name = str "swarmcli.release.web_a.v1";
  labels = (str "type", str "record") ∷ ((str "release", str "web_a") ∷ []);
  content = [];
}

abbrev store : List Named
store = recorded ∷ []

recorded-Written : Written ascii tenant (str "web") recorded
unfolding find_label seq
recorded-Written r = (λ e. cc e, (str "v1", refl))

all-Written : (c : Named) → In c store → Written ascii tenant (str "web") c
all-Written c (inl e) = subst (Written ascii tenant (str "web")) (sym e) recorded-Written
all-Written c (inr b) = absurd b

reject_recorded_collision_iff_example :
    ((reject_recorded_collision ascii tenant (str "web") (λ ps. ok (by_prefix ascii store ps))).1
      ≡ none)
    ↔ (Nowhere ascii tenant (str "web") (Clash ascii tenant (str "web")) store
        × ((false ≡ true)
            ⊎ (Somewhere ascii tenant (str "web") (Own ascii tenant (str "web")) store
                ⊎ Nowhere ascii tenant (str "web") (Extends ascii tenant (str "web")) store)))
reject_recorded_collision_iff_example =
    reject_recorded_collision_iff ascii tenant (str "web") store all-Written refl (λ c e. e)
      (λ ps. ok (by_prefix ascii store ps)) refl

abbrev no_images : Images
no_images = record {
  parse = λ s. none;
  familiar = λ s. none;
  version = λ s. none;
  less_than = λ a b. false;
}

abbrev controller : Container
controller = record web_container {
  args = str "--config" ∷ (str "/apps.yaml" ∷ []);
  configs = record { name = str "apps"; file = some (str "/apps.yaml") } ∷ [];
  mounts =
      record { kind = bind_mount; source = str "/sock"; target = str "/sock"; options = none } ∷ [];
}

abbrev cd_stack : Stack
cd_stack = record web_stack {
  namespace = str "cd";
  services =
      record { name = str "ctl"; scoped_name = str "cd_ctl"; container = some controller } ∷ [];
}

abbrev upgrader : Backend
upgrader = record tenant { self_release = true }

abbrev running_controller : LiveService
running_controller = record { name = str "cd_ctl"; container = some controller }

reject_self_loss-Replaced_example : Replaced no_images cd_stack running_controller controller
unfolding reject_self_loss service_named flag_value env_value secret_at mounted_secret_for
    mounts_config_at mounts_path_at bind_sources check_flag check_app_set_source without_digest
    same_image image_version is_older check_self_version check_replacement check_all seq elem
    cut_prefix
reject_self_loss-Replaced_example =
    reject_self_loss-Replaced no_images upgrader (ok own_mounts) (λ id. ok running_controller)
      cd_stack own_mounts running_controller controller refl refl (λ e. cc e) refl refl refl

abbrev web_now : Current
web_now = record {
  id = str "s2";
  image_label = str "web:0";
  image = some (str "web:0");
  force_update = 0;
}

-- A daemon that refuses the first update of a service as out of date, and nothing else.
abbrev busy_daemon : Answers
busy_daemon = record {
  stack_networks = λ tr. ok [];
  secret = λ tr n. ok none;
  config = λ tr n. ok none;
  stack_services = λ tr. ok [];
  records_of = λ tr n. ok [];
  inspect = λ tr n. ok web_now;
  auth = λ i. ok [];
  time = λ tr. str "now";
  write = λ tr. elim tr [ _ ∷ [] ↦ some conflict | _ ↦ none ];
}

abbrev reads : Reads
reads = record {
  daemon = quiet_daemon;
  config_list = λ ps. ok [];
  inspect = λ id. err (str "unused");
  convert_unresolved = λ allow. ok web_stack;
  convert = λ tr allow. ok web_stack;
}

deploy_stack-Orderly_example :
    ((deploy_stack ascii no_images tenant reads busy_daemon (str "web") (str "changed") []).1 ≡ [])
    ⊎ ((allow : Allow) × (stack : Stack) × Guarded ascii no_images tenant reads busy_daemon
          (str "web")
          (str "changed")
          allow
          stack
        × Orderly ascii no_images tenant busy_daemon stack 3
            (deploy_stack ascii no_images tenant reads busy_daemon
              (str "web")
              (str "changed")
              []).1)
deploy_stack-Orderly_example =
    deploy_stack-Orderly ascii no_images tenant reads busy_daemon (str "web") (str "changed")

abbrev held_labels : Labels
held_labels = (created_label, str "then") ∷ web_label

-- A daemon that holds the secret already, and takes every write.
abbrev holding_daemon : Answers
holding_daemon = record busy_daemon { secret = λ tr n. ok (some held_labels); write = λ tr. none }

deploy_stack-Marks_example :
    ((deploy_stack ascii no_images tenant reads holding_daemon (str "web") (str "changed") []).1
      ≡ [])
    ⊎ ((allow : Allow) × (stack : Stack) × (reads.convert_unresolved allow ≡ ok stack)
        × All
            (Marks holding_daemon stack)
            (deploy_stack ascii no_images tenant reads holding_daemon
              (str "web")
              (str "changed")
              []).1)
deploy_stack-Marks_example =
    deploy_stack-Marks ascii no_images tenant reads holding_daemon (str "web") (str "changed")

-- One service is listed, and is gone by the time it is removed.
abbrev racing : Replies
racing = record {
  list = λ tr. elim tr [ _ ∷ [] ↦ ok (record { id = str "s9"; labels = [] } ∷ []) | _ ↦ ok [] ];
  remove = λ tr. not_found;
}

remove_stack-AllListed_example :
    ((remove_stack ascii racing (ok own_mounts) (str "web") []).1 ≡ [])
    ⊎ (Foreign ascii racing (ok own_mounts) (str "web")
        × AllListed ascii racing
            (str "web")
            (remove_stack ascii racing (ok own_mounts) (str "web") []).1)
remove_stack-AllListed_example = remove_stack-AllListed ascii racing (ok own_mounts) (str "web")

remove_stack-Done_example :
    Done ascii racing (str "web") (remove_stack ascii racing (ok own_mounts) (str "web") []).1
unfolding remove_stack reject_own_namespace remove_sorts remove_items may_be_release_record
    find_label seq
remove_stack-Done_example = remove_stack-Done ascii racing (ok own_mounts) (str "web") refl

abbrev own_service : OwnService
own_service = record {
  id = str "s1";
  labels = (str "stack", str "cd") ∷ [];
  container = some controller;
}

abbrev self_reads : SelfReads
self_reads = record {
  hostname = ok (str "c1");
  container = λ h. ok (some (some []));
  service = λ id. ok (some own_service);
  group = λ v. ok none;
}

abbrev controllers_mounts : SelfMounts
controllers_mounts = record {
  namespace = str "cd";
  service_id = str "s1";
  secrets = str "web_pw" ∷ [];
  configs = str "apps" ∷ [];
  binds = str "/sock" ∷ [];
  volumes = [];
}

mounts_of_service-Covers_example : Covers ascii self_reads own_service controller controllers_mounts
unfolding mounts_of_service add_mounts find_label seq
mounts_of_service-Covers_example =
    mounts_of_service-Covers ascii self_reads own_service controller controllers_mounts refl refl

abbrev answers : List (Outcome Str SelfMounts)
answers = err (str "down") ∷ (ok own_mounts ∷ (err (str "down") ∷ []))
