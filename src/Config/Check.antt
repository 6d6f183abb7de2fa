-- ===== src/Config/Check.antt =====
-- config/config.go, validateApplication and what it calls: each rule as a check that returns the
-- first error it finds.
pub mod Accepted
use swarmcli_cd.Base.{
  ℕ, Bool, true, false, not, ◌&&◌, ◌||◌, Option, none, some, List, [], ◌∷◌, ◌++◌, Str, str, seq,
  cut_prefix, has_rune, is_empty, ◌==◌, leb, if◌then◌else◌, refuse, ◌then◌, check_all,
}
use swarmcli_cd.Application.{
  RepositorySpec, ChartSource, Source, Allow, SyncPolicy, Spec, Signed, DriftDetection,
  drift_manifest, drift_live,
}
use swarmcli_cd.Config.Paths.{PathError, repo_path, clean, is_abs, slash}

-- The character classes of `nameRE`, and those of the three expressions for names on the swarm.
abbrev is_digit : ℕ → Bool
is_digit c = leb b'0' c && leb c b'9'

abbrev is_lower : ℕ → Bool
is_lower c = leb b'a' c && leb c b'z'

abbrev is_upper : ℕ → Bool
is_upper c = leb b'A' c && leb c b'Z'

abbrev is_mark : ℕ → Bool
is_mark c = c == b'.' || (c == b'_' || c == b'-')

unfoldable pub is_name_start : ℕ → Bool
is_name_start c = is_lower c || is_digit c

unfoldable pub is_swarm_start : ℕ → Bool
is_swarm_start c = is_lower c || (is_upper c || is_digit c)

-- `^[start][start._-]*$`
unfoldable pub continues : (ℕ → Bool) → Str → Bool
continues begins [] = true
continues begins (c ∷ cs) =
    let rest = continues begins cs in if begins c || is_mark c then rest else false

abbrev matches : (ℕ → Bool) → Str → Bool
matches begins [] = false
matches begins (c ∷ cs) = begins c && continues begins cs

-- `nameRE`
abbrev pub is_name : Str → Bool
is_name = matches is_name_start

-- `secretNameRE`, `allowNameRE` and the `repoNameRE` behind `ValidRepositoryName`, which are one
-- expression.
abbrev pub is_swarm_name : Str → Bool
is_swarm_name = matches is_swarm_start

-- A constructor for each message, less the index in a list that some of them carry.
pub data AppError : Type 0 where
  name_required drift_unsupported chart_or_file both_sources url_required revision_required :
      AppError
  bad_name bad_registry_auth host_path_relative host_path_unclean bad_allow bad_repository :
      Str → AppError
  host_path_empty path_and_ref version_with_path version_required bad_ref no_repositories : AppError
  path_or_ref repository_incomplete self_without_chart self_without_live : AppError
  negative_interval negative_history volumes_without_prune first_without_prune : AppError
  outside_repo : PathError → AppError

abbrev pub in_repo : Str → Option AppError
in_repo p = elim (repo_path p) [ none ↦ none | some e ↦ some (outside_repo e) ]

abbrev pub check_host_path : Str → Option AppError
check_host_path p =
    refuse (is_empty p) host_path_empty
    then refuse (not (is_abs p)) (host_path_relative p)
    then refuse (not (seq (clean p) p)) (host_path_unclean p)

abbrev pub check_allow_name : Str → Option AppError
check_allow_name n = refuse (not (is_swarm_name n)) (bad_allow n)

-- `strings.TrimPrefix(name, "group:")`
abbrev pub trim_group : Str → Str
trim_group n = elim (cut_prefix n (str "group:")) [ none ↦ n | some rest ↦ rest ]

unfoldable pub validate_allow : Allow → Option AppError
validate_allow a =
    check_all check_host_path a.host_paths
    then check_all check_allow_name a.secrets
    then check_all check_allow_name a.configs
    then check_all (λ n. check_allow_name (trim_group n)) a.volumes
    then check_all check_allow_name a.networks

abbrev pub check_repository : RepositorySpec → Option AppError
check_repository r =
    refuse (is_empty r.name || is_empty r.url) repository_incomplete
    then refuse (not (is_swarm_name r.name)) (bad_repository r.name)

abbrev pub check_by_path : ChartSource → Option AppError
check_by_path c = refuse (not (is_empty c.version)) version_with_path then in_repo c.path

abbrev pub check_by_ref : ChartSource → Option AppError
check_by_ref c =
    refuse (is_empty c.version) version_required
    then refuse (not (has_rune slash c.ref)) bad_ref
    then refuse (is_empty c.repositories) no_repositories

unfoldable pub validate_chart : ChartSource → Option AppError
validate_chart c =
    (if not (is_empty c.path) && not (is_empty c.ref)
      then some path_and_ref
      else if not (is_empty c.path)
      then check_by_path c
      else if not (is_empty c.ref)
      then check_by_ref c
      else some path_or_ref)
    then check_all check_repository c.repositories
    then check_all in_repo c.values

-- The switch of `validateSource`.
abbrev pub check_kind : Str → Option ChartSource → Option AppError
check_kind [] none = some chart_or_file
check_kind [] (some c) = validate_chart c
check_kind (x ∷ xs) none = in_repo (x ∷ xs)
check_kind (x ∷ xs) (some c) = some both_sources

unfoldable pub validate_source : Source → Option AppError
validate_source src =
    refuse (is_empty src.repo_url) url_required
    then refuse (is_empty src.revision) revision_required
    then check_kind src.release_file src.chart

-- `DriftDetection.Valid`
abbrev pub is_valid_drift : DriftDetection → Bool
is_valid_drift drift_manifest = true
is_valid_drift drift_live = true
is_valid_drift _ = false

abbrev pub is_live : DriftDetection → Bool
is_live drift_live = true
is_live _ = false

abbrev pub is_none {ℓ} : {A : Type ℓ} → Option A → Bool
is_none none = true
is_none (some a) = false

unfoldable pub validate_self : Spec → Option AppError
validate_self app =
    if not app.self
    then none
    else (refuse (is_none app.source.chart) self_without_chart
        then refuse (not (is_live app.drift_detection)) self_without_live)

abbrev pub negative_limit : Option Signed → Bool
negative_limit none = false
negative_limit (some n) = n.is_negative

unfoldable pub validate_policy : SyncPolicy → Option AppError
validate_policy p =
    refuse (p.interval.is_negative || p.timeout.is_negative) negative_interval
    then refuse (negative_limit p.history_max) negative_history
    then refuse (p.prune_volumes && not p.prune) volumes_without_prune
    then refuse (p.prune_first && (not p.prune && not p.prune_resources)) first_without_prune

unfoldable pub validate_application : Spec → Option AppError
validate_application app =
    refuse (is_empty app.name) name_required
    then refuse (not (is_name app.name)) (bad_name app.name)
    then refuse (not (is_valid_drift app.drift_detection)) drift_unsupported
    then refuse (not (is_empty app.registry_auth) && not (is_swarm_name app.registry_auth))
        (bad_registry_auth app.registry_auth)
    then validate_allow app.allow
    then validate_source app.source
    then validate_self app
    then validate_policy app.sync_policy
