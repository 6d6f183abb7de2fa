-- ===== src/Backend/Self.antt =====
-- backend/backend.go, the guards on this controller's own release: rejectSelfMismatch,
-- rejectOwnNamespace, rejectOwnNamespaceInAnotherCase and rejectSelfLoss; and backend/selfimage.go.

pub mod Kept
use swarmcli_cd.Base.{
  ℕ, Bool, true, false, not, ◌&&◌, ◌||◌, Option, none, some, List, [], ◌∷◌, ◌++◌, map, Str, str,
  seq, elem, cut_prefix, has_rune, is_empty, keep, ◌==◌, if◌then◌else◌, Outcome, ok, err, refuse,
  ◌then◌, check_all, given,
}
use swarmcli_cd.Owner.{scoped, underscore}
use swarmcli_cd.Backend.{
  Mount, Reference, Container, Service, Stack, SelfMounts, Backend, bind_mount,
}
use swarmcli_cd.Backend.Records.{Platform, lower_case}

pub data SelfError : Type 0 where
  unreadable : Str → SelfError
  not_a_stack no_service : SelfError
  other_stack own_stack own_stack_in_case : Str → SelfError
  drops_bind drops_token drops_app_set : Str → SelfError
  older_image : Str → Str → SelfError

-- What the controller's service runs as.
pub record LiveService : Type 0 where
  pub name : Str
  pub container : Option Container

-- What the version check asks of other packages: a reference's familiar name and its tag, the reference
-- in full, and a tag's version with its order. `none` is an error, or a reference without a tag.
pub record Images : Type 0 where
  pub parse : Str → Option (Str × Str)
  pub familiar : Str → Option Str
  pub version : Str → Option Str
  pub less_than : Str → Str → Bool

unfoldable pub reject_self_mismatch : Backend → Outcome Str SelfMounts → Str → Option SelfError
reject_self_mismatch b mounts release =
    if not b.self_release
    then none
    else given unreadable mounts λ mine.
      refuse (is_empty mine.namespace) not_a_stack
      then refuse (not (seq mine.namespace release)) (other_stack mine.namespace)

unfoldable pub reject_own_namespace : Outcome Str SelfMounts → Str → Option SelfError
reject_own_namespace mounts release =
    given unreadable mounts λ mine.
      refuse (not (is_empty mine.namespace) && seq mine.namespace release) (own_stack release)

unfoldable pub reject_own_namespace_in_case :
    Platform → Outcome Str SelfMounts → Str → Option SelfError
reject_own_namespace_in_case pf mounts release = given unreadable mounts λ mine.
    refuse
      (not (seq mine.namespace release)
        && seq (lower_case pf mine.namespace) (lower_case pf release))
      (own_stack_in_case mine.namespace)

-- `serviceNamed`
unfoldable pub service_named : Str → Str → List Service → Option Service
service_named namespace name [] = none
service_named namespace name (s ∷ ss) =
    let rest = service_named namespace name ss in
    if seq s.scoped_name name || seq (scoped namespace s.name) name then some s else rest

abbrev pub command_line : Container → List Str
command_line cs = cs.command ++ cs.args

-- `flagValue`: the argument after the first one that is the flag and is not the last.
unfoldable pub flag_value : List Str → Str → Option Str
flag_value [] flag = none
flag_value (a ∷ []) flag = none
flag_value (a ∷ (v ∷ rest)) flag =
    let later = flag_value (v ∷ rest) flag in if seq a flag then some v else later

unfoldable pub env_value : List Str → Str → Option Str
env_value [] name = none
env_value (e ∷ es) name =
    let rest = env_value es name in
    elim (cut_prefix e (name ++ str "=")) [ some v ↦ some v | none ↦ rest ]

-- `ref.File != nil && ref.File.Name == path`
abbrev pub is_file : Str → Reference → Bool
is_file path r = elim r.file [ none ↦ false | some f ↦ seq f path ]

unfoldable pub secret_at : Str → List Reference → Option Str
secret_at path [] = none
secret_at path (r ∷ rs) =
    let rest = secret_at path rs in if is_file path r then some r.name else rest

abbrev default_secrets_dir : Str
default_secrets_dir = str "/run/secrets"

abbrev secret_of_path : Container → Option Str → Option Str
secret_of_path cs none = none
secret_of_path cs (some path) = elim (cut_prefix path (default_secrets_dir ++ str "/")) [
  | none ↦ none
  | some target ↦ secret_at target cs.secrets
]

unfoldable pub mounted_secret_for : Container → Str → Option Str
mounted_secret_for cs env = secret_of_path cs (env_value cs.env env)

abbrev pub secret_names : Container → List Str
secret_names cs = map (λ r. r.name) cs.secrets

unfoldable pub mounts_config_at : Container → Str → Bool
mounts_config_at cs path = not (is_empty (keep (is_file path) cs.configs))

unfoldable pub mounts_path_at : Container → Str → Bool
mounts_path_at cs path = not (is_empty (keep (λ m. seq m.target path) cs.mounts))

abbrev is_bind : Mount → Bool
is_bind m = elim m.kind [ bind_mount ↦ not (is_empty m.source) | _ ↦ false ]

unfoldable pub bind_sources : Container → List Str
bind_sources cs = map (λ m. m.source) (keep is_bind cs.mounts)

abbrev pub admin_token_file_env : Str
admin_token_file_env = str "SWARMCLI_CD_ADMIN_TOKEN_FILE"

-- `appSetFlags`: a flag, and what its value needs of the new container.
abbrev pub app_set_flags : List (Str × (Container → Str → Bool))
app_set_flags =
    (str "--config", mounts_config_at)
    ∷ ((str "--appset-dir", mounts_path_at) ∷ ((str "--appset-repo", λ c v. true) ∷ []))

-- For a flag: its old value, its new one, and what the old value needs.
abbrev pub kept_flag : Str → Option Str → Option Str → (Str → Bool) → Option SelfError
kept_flag flag none now needs = none
kept_flag flag (some value) none needs = some (drops_app_set flag)
kept_flag flag (some value) (some w) needs = refuse (not (needs value)) (drops_app_set value)

unfoldable pub check_flag :
    Container → Container → Str × (Container → Str → Bool) → Option SelfError
check_flag from to src =
    kept_flag src.0 (flag_value (command_line from) src.0) (flag_value (command_line to) src.0)
      (src.1 to)

unfoldable pub check_app_set_source : Container → Container → Option SelfError
check_app_set_source from to = check_all (check_flag from to) app_set_flags

-- `withoutDigest`: what stands before the last `@`.
unfoldable pub without_digest : Str → Str
without_digest [] = []
without_digest (c ∷ cs) =
    let rest = without_digest cs in if c == b'@' && not (has_rune b'@' cs) then [] else c ∷ rest

abbrev normalised_image : Images → Str → Str
normalised_image im image = elim (im.familiar image) [ none ↦ image | some f ↦ f ]

-- compose/image.go, SameImage.
unfoldable pub same_image : Images → Str → Str → Bool
same_image im live wanted =
    seq live (normalised_image im wanted) || seq (without_digest live) (normalised_image im wanted)

abbrev tagged_version : Images → Option (Str × Str) → Option (Str × Str)
tagged_version im none = none
tagged_version im (some p) = elim (im.version p.1) [ none ↦ none | some v ↦ some (p.0, v) ]

-- The repository and the version that an image names.
unfoldable pub image_version : Images → Str → Option (Str × Str)
image_version im image = tagged_version im (im.parse (without_digest image))

-- Two images that name a version of one repository, the second an older one.
unfoldable pub is_older : Images → Option (Str × Str) → Option (Str × Str) → Bool
is_older im (some p) (some q) = seq p.0 q.0 && im.less_than q.1 p.1
is_older im none q = false
is_older im (some p) none = false

unfoldable pub check_self_version : Images → Str → Str → Option SelfError
check_self_version im from to =
    if is_empty from || is_empty to || same_image im from to
    then none
    else refuse (is_older im (image_version im from) (image_version im to)) (older_image to from)

-- `name, ok := mountedSecretFor(from, …); ok && !mountsSecret(to, name)`
abbrev pub check_token : Option Str → List Str → Option SelfError
check_token none kept = none
check_token (some name) kept = refuse (not (elem name kept)) (drops_token name)

abbrev pub check_bind : List Str → Str → Option SelfError
check_bind kept src = refuse (not (elem src kept)) (drops_bind src)

-- The comparison of what runs with what would replace it.
unfoldable pub check_replacement : Images → Container → Container → Option SelfError
check_replacement im from to =
    check_all (check_bind (bind_sources to)) (bind_sources from)
    then check_token (mounted_secret_for from admin_token_file_env) (secret_names to)
    then check_app_set_source from to
    then check_self_version im from.image to.image

abbrev container_of : Option Service → Option Container
container_of none = none
container_of (some s) = s.container

abbrev pub replaces : Images → Container → Option Service → Option SelfError
replaces im from want = elim (container_of want) [
  | none ↦ some no_service
  | some to ↦ check_replacement im from to
]

-- What follows the reading of the controller's own service.
abbrev pub against_live : Images → Stack → LiveService → Option SelfError
against_live im stack live = elim live.container [
  | none ↦ none
  | some from ↦ replaces im from (service_named stack.namespace live.name stack.services)
]

-- `inspect` is the daemon's answer on a service, by its id.
abbrev pub against_mine :
    Images → Stack → (Str → Outcome Str LiveService) → SelfMounts → Option SelfError
against_mine im stack inspect mine =
    if is_empty mine.service_id
    then none
    else given unreadable (inspect mine.service_id) (against_live im stack)

unfoldable pub reject_self_loss :
    Images
    → Backend
    → Outcome Str SelfMounts
    → (Str → Outcome Str LiveService)
    → Stack
    → Option SelfError
reject_self_loss im b mounts inspect stack =
    if not b.self_release then none else given unreadable mounts (against_mine im stack inspect)
