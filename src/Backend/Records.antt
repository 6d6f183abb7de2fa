-- ===== src/Backend/Records.antt =====
-- The release records: isReleaseRecord and mayBeReleaseRecord of backend/service.go, and
-- releaseConfigNames and namedLikeARecord of backend/backend.go.
use swarmcli_cd.Base.{
  ℕ, Bool, true, false, ◌&&◌, Option, none, some, List, map, Str, seq, has_prefix, keep, Outcome,
  ok, err,
}
use swarmcli_cd.Owner.{to_lower}
use swarmcli_cd.Backend.{Labels, Named, find_label, label_at, release_record_prefix}

-- What the code uses of other packages: `unicode.ToLower`, the folding behind `strings.EqualFold`, the
-- label of a stack's namespace (docker's `convert`), and the labels of a release record (`charts`).
pub record Platform : Type 0 where
  pub lower : ℕ → ℕ
  pub fold : ℕ → ℕ
  pub label_namespace : Str
  pub label_type : Str
  pub label_release : Str
  pub type_release : Str

abbrev pub lower_case : Platform → Str → Str
lower_case pf s = to_lower pf.lower s

-- `strings.EqualFold`
abbrev pub equal_fold : Platform → Str → Str → Bool
equal_fold pf a b = seq (map pf.fold a) (map pf.fold b)

abbrev is_none : Option Str → Bool
is_none none = true
is_none (some s) = false

unfoldable pub may_be_release_record : Platform → Labels → Bool
may_be_release_record pf labels = seq (label_at pf.label_type labels) pf.type_release

unfoldable pub is_release_record : Platform → Labels → Bool
unfolding may_be_release_record
is_release_record pf labels =
    may_be_release_record pf labels && is_none (find_label pf.label_namespace labels)

-- The names of the records among the configs that the daemon lists, in lower case.
abbrev pub record_names : Platform → List Named → List Str
record_names pf list =
    map (λ c. lower_case pf c.name) (keep (λ c. is_release_record pf c.labels) list)

-- `list` is the daemon's answer on the configs typed as a release record.
unfoldable pub release_config_names : Platform → Outcome Str (List Named) → Outcome Str (List Str)
release_config_names pf (ok list) = ok (record_names pf list)
release_config_names pf (err e) = err e

unfoldable pub named_like_a_record : Platform → Str → Bool
named_like_a_record pf name = has_prefix (lower_case pf name) release_record_prefix
