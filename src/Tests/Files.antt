-- ===== src/Tests/Files.antt =====
-- Application sets of config/config.go at concrete files.
use swarmcli_cd.AppSet.Loader.{Document, Files, Reader, path_reader, read, Loader, LoadError, load}
use swarmcli_cd.AppSet.Loader.LastGood.{IsGood, load-IsGood}
use swarmcli_cd.Base.{
  check_all, err, arith, Option, Bool, ℕ, ◌+◌, ◌≡◌, ◌≢◌, ◌↔◌, ◌⊎◌, ◌≤◌, refl, true, false, none,
  some, List, [], ◌∷◌, str, ok, Distinct, All, length, leb, ◌&&◌, if◌then◌else◌, seq, elem,
  has_rune, cut_prefix,
}
use swarmcli_cd.Application.{Spec, Signed, drift_unknown}
use swarmcli_cd.Config.Paths.{is_abs, split, repo_path, clean, clean_elements, join_back}
use swarmcli_cd.Config.Paths.Contained.{stays_inside, repo_path_iff}
use swarmcli_cd.Config.Check.{
  validate_application, validate_allow, validate_source, validate_chart, validate_self,
  validate_policy, continues, is_name_start, is_swarm_start,
}
use swarmcli_cd.Config.Check.Accepted.{Accepted, validate_application_iff}
use swarmcli_cd.Config.Set.{
  File, Yaml, document, end_of_input, parse, finish, apply_defaults, default_app, validate,
  validate_apps, claim_release, claim_of, declares_none,
}
use swarmcli_cd.Config.Set.Obeyed.{names, release_keys, selves, validate_iff}
use swarmcli_cd.Config.Set.Resolved.{IsResolved, parse-IsResolved}

abbrev ascii_lower : ℕ → ℕ
ascii_lower c = if leb b'A' c && leb c b'Z' then c + 32 else c

repo_path_iff_example : (repo_path (str "a/../../b") ≡ none) ↔ (
    (str "a/../../b" ≢ [])
    × (is_abs (str "a/../../b") ≡ false)
    × (stays_inside 0 (split (str "a/../../b")) ≡ true))
repo_path_iff_example = repo_path_iff (str "a/../../b")

abbrev unset : Signed
unset = record { is_negative = false; magnitude = 0 }

-- A chart in the repository, with its release and its drift detection left to the defaults.
abbrev shop : Spec
shop = record {
  name = str "shop";
  source = record {
    repo_url = str "https://example.org/shop.git";
    revision = str "main";
    release_file = [];
    chart = some (record {
      release = [];
      path = str "charts/shop";
      ref = [];
      version = [];
      values = [];
      repositories = [];
    });
  };
  registry_auth = [];
  self = false;
  allow = record { host_paths = []; secrets = []; configs = []; volumes = []; networks = [] };
  swarm = [];
  sync_policy = record {
    automated = true;
    interval = unset;
    waits = false;
    timeout = unset;
    history_max = none;
    prune = false;
    prune_volumes = false;
    prune_resources = false;
    prune_first = false;
  };
  drift_detection = drift_unknown;
}

validate_application_iff_example : (validate_application shop ≡ none) ↔ Accepted shop
validate_application_iff_example = validate_application_iff shop

abbrev file : File
file = record { api_version = str "v1"; applications = some (shop ∷ []) }

validate_iff_example : (validate ascii_lower file ≡ none) ↔ (
    ((str "v1" ≡ []) ⊎ (str "v1" ≡ str "v1"))
    × ((apps : List Spec) × (file.applications ≡ some apps)
        × All Accepted apps
        × Distinct (names apps)
        × Distinct (release_keys ascii_lower apps)
        × (length (selves apps) ≤ 1)))
validate_iff_example = validate_iff ascii_lower file

-- A decoder that reads that file out of every text.
abbrev yaml : Yaml
yaml = record {
  Error = Unit;
  decode_file = λ _. document file;
  decode_entries = λ _. document 1;
  decode_next = λ _. end_of_input;
}

file_parses : parse yaml ascii_lower [] ≡ ok (apply_defaults file)
unfolding parse finish apply_defaults default_app validate validate_apps claim_release claim_of
    validate_application validate_allow validate_source validate_chart validate_self validate_policy
    check_all continues is_name_start is_swarm_start repo_path clean clean_elements join_back split
    seq elem has_rune cut_prefix declares_none
file_parses = refl

parse-IsResolved_example : IsResolved yaml ascii_lower [] (apply_defaults file)
parse-IsResolved_example = parse-IsResolved yaml ascii_lower [] (apply_defaults file) file_parses

-- A directory in which every file is empty, and no repository.
abbrev files : Files
files = record { Error = Unit; fetch = err tt; file = λ root path. ok [] }

abbrev same_text : List ℕ → List ℕ
same_text bytes = bytes

abbrev fresh : Loader
fresh = record { current = none; digest = []; loaded = false; revision = []; loaded_at = 0 }

fresh-IsGood : IsGood yaml ascii_lower same_text files fresh
fresh-IsGood h = ground arith

abbrev reader : Reader
reader = path_reader (str "/apps") (str "set.yaml")

load-IsGood_example :
    let r = load yaml ascii_lower same_text files reader 7 fresh in
    IsGood yaml ascii_lower same_text files r.1
    × ((e : LoadError yaml ascii_lower same_text files) → r.0 ≡ err e → r.1 ≡ fresh)
    × ((file : Option File) (changed : Bool)
        → r.0 ≡ ok (file, changed)
        → (doc : Document) × (f : File) × (read files reader ≡ ok doc)
          × (parse yaml ascii_lower doc.bytes ≡ ok f)
          × (file ≡ some f)
          × (r.1.current ≡ some f))
load-IsGood_example =
    load-IsGood yaml ascii_lower same_text files (λ a b e. e) reader 7 fresh fresh-IsGood
