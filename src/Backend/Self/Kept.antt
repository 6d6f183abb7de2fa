-- ===== src/Backend/Self/Kept.antt =====
-- What rejectSelfLoss of backend/backend.go keeps of the controller that a release would replace.
use swarmcli_cd.Base.{
  ◌≡◌, ◌≢◌, ◌↔◌, ◌⊎◌, inl, inr, refl, Bool, true, false, Option, none, some, List, [], ◌∷◌, arith,
  Str, seq_iff, elem_iff, In, All, Option-cases, Outcome, ok, ◌then◌, check_all_iff,
}
use swarmcli_cd.Owner.{scoped}
use swarmcli_cd.Backend.{Container, Service, Stack, SelfMounts, Backend}
use swarmcli_cd.Backend.Self.{
  Images, LiveService, SelfError, service_named, flag_value, command_line, bind_sources,
  secret_names, mounted_secret_for, admin_token_file_env, check_flag, kept_flag,
  check_app_set_source, app_set_flags, check_self_version, check_replacement, check_token, replaces,
  reject_self_loss, image_version, is_older, same_image,
}

-- A flag that the controller runs with is still given, and what its old value names is still mounted.
abbrev pub FlagKept : Container → Container → Str × (Container → Str → Bool) → Type 0
FlagKept from to src =
    (value : Str)
    → flag_value (command_line from) src.0 ≡ some value
    → ((w : Str) × (flag_value (command_line to) src.0 ≡ some w)) × (src.1 to value ≡ true)

kept_flag_iff :
    (flag : Str) (o n : Option Str) (needs : Str → Bool)
    → (kept_flag flag o n needs ≡ none)
      ↔ ((value : Str) → o ≡ some value → ((w : Str) × (n ≡ some w)) × (needs value ≡ true))
kept_flag_iff flag none n needs = (λ h v e. cc, λ h. refl)
kept_flag_iff flag (some v) none needs = (λ h u e. cc, λ h. let ((w, q), r) = h v refl in cc)
kept_flag_iff flag (some v) (some w) needs =
    (λ h u e. ((w, refl), ground arith), λ h. ground (arith, h v refl))

check_flag_iff :
    (from to : Container) (src : Str × (Container → Str → Bool))
    → (check_flag from to src ≡ none) ↔ FlagKept from to src
unfolding check_flag
check_flag_iff from to src =
    kept_flag_iff src.0 (flag_value (command_line from) src.0) (flag_value (command_line to) src.0)
      (src.1 to)

-- The new image is not one of an older version of the repository that the old one names.
abbrev pub NotOlder : Images → Str → Str → Type 0
NotOlder im from to =
    (from ≢ [])
    → (to ≢ [])
    → same_image im from to ≡ false
    → is_older im (image_version im from) (image_version im to) ≡ false

check_self_version_iff :
    (im : Images) (from to : Str) → (check_self_version im from to ≡ none) ↔ NotOlder im from to
unfolding check_self_version
check_self_version_iff im from to = ground arith

check_token_iff :
    (o : Option Str) (kept : List Str)
    → (check_token o kept ≡ none) ↔ ((name : Str) → o ≡ some name → In name kept)
check_token_iff none kept = ground arith
check_token_iff (some n) kept =
    (λ h m e. ground (arith, elem_iff n kept), λ h. ground (arith, elem_iff n kept, h n refl))

all_four :
    {p q r s : Type 0} (a b c d : Option SelfError)
    → (a ≡ none) ↔ p
    → (b ≡ none) ↔ q
    → (c ≡ none) ↔ r
    → (d ≡ none) ↔ s
    → ((a then b then c then d) ≡ none) ↔ (p × q × r × s)
all_four a b c d h i j k = ground arith

abbrev pub Kept : Images → Container → Container → Type 0
Kept im from to =
    All (λ src. In src (bind_sources to)) (bind_sources from)
    × ((name : Str)
        → mounted_secret_for from admin_token_file_env ≡ some name
        → In name (secret_names to))
    × All (FlagKept from to) app_set_flags
    × NotOlder im from.image to.image

check_replacement_iff :
    (im : Images) (from to : Container) → (check_replacement im from to ≡ none) ↔ Kept im from to
unfolding check_replacement check_app_set_source
check_replacement_iff im from to =
    all_four _ _ _ _
      (check_all_iff _ (λ src. In src (bind_sources to))
        (λ src. ground (arith, elem_iff src (bind_sources to))) (bind_sources from))
      (check_token_iff (mounted_secret_for from admin_token_file_env) (secret_names to))
      (check_all_iff _ (FlagKept from to) (check_flag_iff from to) app_set_flags)
      (check_self_version_iff im from.image to.image)

named_in :
    (ns name : Str) (svc : Service) (ss : List Service)
    → service_named ns name ss ≡ some svc
    → In svc ss × ((svc.scoped_name ≡ name) ⊎ (scoped ns svc.name ≡ name))
unfolding service_named
named_in ns name svc [] h = cc
named_in ns name svc (s ∷ ss) h =
    ground
      (arith, named_in ns name svc ss, seq_iff s.scoped_name name, seq_iff (scoped ns s.name) name)

-- Some service of the stack goes by the controller's name, and runs as what `Kept` spells out.
abbrev pub Replaced : Images → Stack → LiveService → Container → Type 0
Replaced im stack live from =
    (svc : Service) × In svc stack.services
    × ((svc.scoped_name ≡ live.name) ⊎ (scoped stack.namespace svc.name ≡ live.name))
    × ((to : Container) × (svc.container ≡ some to) × Kept im from to)

replaces-some :
    (im : Images) (from : Container) (o : Option Service)
    → replaces im from o ≡ none
    → (svc : Service) × (o ≡ some svc)
      × ((to : Container) × (svc.container ≡ some to) × (check_replacement im from to ≡ none))
replaces-some im from none h = cc
replaces-some im from (some svc) h = elim (Option-cases svc.container) [
  | inl e ↦ ground arith
  | inr (to, e) ↦ (svc, refl, (to, e, ground arith))
]

-- A stack that is the controller's own release and passes the guard has a service by the name of the
-- running controller's, whose container keeps the binds, the token's secret, each flag that says where
-- the app set is with what its value names, and runs an image of no older version.
pub reject_self_loss-Replaced :
    (im : Images) (b : Backend) (mounts : Outcome Str SelfMounts)
    (inspect : Str → Outcome Str LiveService) (stack : Stack) (mine : SelfMounts)
    (live : LiveService) (from : Container)
    → b.self_release ≡ true
    → mounts ≡ ok mine
    → mine.service_id ≢ []
    → inspect mine.service_id ≡ ok live
    → live.container ≡ some from
    → reject_self_loss im b mounts inspect stack ≡ none
    → Replaced im stack live from
unfolding reject_self_loss
reject_self_loss-Replaced im b mounts inspect stack mine live from s m i q c h =
    let (svc, e, (to, k, r)) =
      replaces-some im from (service_named stack.namespace live.name stack.services)
        (ground arith) in
    let (there, by_name) = named_in stack.namespace live.name svc stack.services e in
    (svc, there, by_name, (to, k, (check_replacement_iff im from to).0 r))
