-- ===== src/Config/Check/Accepted.antt =====
-- What validateApplication of config/config.go accepts.
use swarmcli_cd.Base.{
  ◌≡◌, ◌≢◌, ◌↔◌, ◌⊎◌, true, false, Option, none, some, [], ◌∷◌, arith, Str, seq_iff, has_rune, All,
  check_all_iff,
}
use swarmcli_cd.Application.{
  RepositorySpec, ChartSource, Allow, SyncPolicy, Spec, drift_manifest, drift_live,
}
use swarmcli_cd.Config.Paths.{clean, is_abs, slash, split}
use swarmcli_cd.Config.Paths.Contained.{stays_inside, repo_path_iff}
use swarmcli_cd.Config.Check.{
  is_name, is_swarm_name, in_repo, check_host_path, check_allow_name, trim_group, validate_allow,
  check_repository, validate_chart, check_kind, validate_source, validate_self, validate_policy,
  negative_limit, validate_application,
}

-- A relative path that leaves the repository at no step.
abbrev pub InRepo : Str → Type 0
InRepo p = (p ≢ []) × (is_abs p ≡ false) × (stays_inside 0 (split p) ≡ true)

abbrev pub HostPath : Str → Type 0
HostPath p = (is_abs p ≡ true) × (clean p ≡ p)

abbrev pub SwarmName : Str → Type 0
SwarmName n = is_swarm_name n ≡ true

abbrev pub Allowed : Allow → Type 0
Allowed a =
    All HostPath a.host_paths
    × All SwarmName a.secrets
    × All SwarmName a.configs
    × All (λ n. SwarmName (trim_group n)) a.volumes
    × All SwarmName a.networks

abbrev pub Repository : RepositorySpec → Type 0
Repository r = (r.url ≢ []) × SwarmName r.name

-- In the repository and so without a version, or by reference, with a version and somewhere to look.
abbrev pub Chart : ChartSource → Type 0
Chart c =
    (((c.ref ≡ []) × (c.version ≡ []) × InRepo c.path)
      ⊎ ((c.path ≡ [])
          × (c.ref ≢ [])
          × (c.version ≢ [])
          × (has_rune slash c.ref ≡ true)
          × (c.repositories ≢ [])))
    × All Repository c.repositories
    × All InRepo c.values

abbrev pub OneSource : Str → Option ChartSource → Type 0
OneSource release_file chart =
    ((chart ≡ none) × InRepo release_file)
    ⊎ ((release_file ≡ []) × ((c : ChartSource) × (chart ≡ some c) × Chart c))

abbrev pub Policy : SyncPolicy → Type 0
Policy p =
    (p.interval.is_negative ≡ false)
    × (p.timeout.is_negative ≡ false)
    × (negative_limit p.history_max ≡ false)
    × (p.prune_volumes ≡ true → p.prune ≡ true)
    × (p.prune_first ≡ true → ((p.prune ≡ true) ⊎ (p.prune_resources ≡ true)))

abbrev pub Accepted : Spec → Type 0
Accepted app =
    (is_name app.name ≡ true)
    × ((app.drift_detection ≡ drift_manifest) ⊎ (app.drift_detection ≡ drift_live))
    × ((app.registry_auth ≡ []) ⊎ SwarmName app.registry_auth)
    × Allowed app.allow
    × (app.source.repo_url ≢ [])
    × (app.source.revision ≢ [])
    × OneSource app.source.release_file app.source.chart
    × (app.self ≡ true → ((app.source.chart ≢ none) × (app.drift_detection ≡ drift_live)))
    × Policy app.sync_policy

in_repo_iff : (p : Str) → (in_repo p ≡ none) ↔ InRepo p
in_repo_iff p = ground (arith, repo_path_iff p)

check_host_path_iff : (p : Str) → (check_host_path p ≡ none) ↔ HostPath p
check_host_path_iff p = ground (arith, seq_iff (clean p) p)

check_allow_name_iff : (n : Str) → (check_allow_name n ≡ none) ↔ SwarmName n
check_allow_name_iff n = ground arith

check_repository_iff : (r : RepositorySpec) → (check_repository r ≡ none) ↔ Repository r
check_repository_iff r = ground arith

validate_allow_iff : (a : Allow) → (validate_allow a ≡ none) ↔ Allowed a
unfolding validate_allow
validate_allow_iff a = ground (
  arith,
  check_all_iff check_host_path HostPath check_host_path_iff a.host_paths,
  check_all_iff check_allow_name SwarmName check_allow_name_iff a.secrets,
  check_all_iff check_allow_name SwarmName check_allow_name_iff a.configs,
  check_all_iff (λ n. check_allow_name (trim_group n)) (λ n. SwarmName (trim_group n))
      (λ n. check_allow_name_iff (trim_group n)) a.volumes,
  check_all_iff check_allow_name SwarmName check_allow_name_iff a.networks,
)

validate_chart_iff : (c : ChartSource) → (validate_chart c ≡ none) ↔ Chart c
unfolding validate_chart
validate_chart_iff c = ground (
  arith,
  in_repo_iff c.path,
  check_all_iff check_repository Repository check_repository_iff c.repositories,
  check_all_iff in_repo InRepo in_repo_iff c.values,
)

check_kind_iff :
    (f : Str) (chart : Option ChartSource) → (check_kind f chart ≡ none) ↔ OneSource f chart
check_kind_iff [] none = ground arith
check_kind_iff [] (some c) = ground (arith, validate_chart_iff c)
check_kind_iff (x ∷ xs) none = ground (arith, in_repo_iff (x ∷ xs))
check_kind_iff (x ∷ xs) (some c) = ground arith

validate_policy_iff : (p : SyncPolicy) → (validate_policy p ≡ none) ↔ Policy p
unfolding validate_policy
validate_policy_iff p = ground arith

-- The checks on one application find no error exactly if it is as `Accepted` spells out: names in
-- their charsets, a drift detection of this build, an allowlist of clean absolute paths and of
-- possible names, one source that is pinned and leaves the repository nowhere, live drift detection
-- and a chart for the controller itself, no negative bound, and no prune option without its gate.
pub validate_application_iff : (app : Spec) → (validate_application app ≡ none) ↔ Accepted app
unfolding validate_application validate_source validate_self
validate_application_iff app = ground (
  arith,
  validate_allow_iff app.allow,
  check_kind_iff app.source.release_file app.source.chart,
  validate_policy_iff app.sync_policy,
)
