-- ===== src/Reconcile/Installs.antt =====
-- reconcile/reconcile.go: the gates that a plan passes before any of it is applied, and the waves it
-- is applied in.
pub mod Marks
pub mod Waves
pub mod Compat
use swarmcli_cd.Base.{
  ℕ, Bool, true, false, not, Option, none, some, List, [], ◌∷◌, ◌++◌, Str, seq, keep, is_empty,
  Outcome, ok, err, compare_str, ◌==◌, if◌then◌else◌,
}
use swarmcli_cd.Owner.{releases_collide}

-- What the code reads of the chart engine's ReleasePlan; an action of the engine's that is neither an
-- install nor `unchanged` is an upgrade.
pub data Action : Type 0 where
  install upgrade unchanged : Action

pub data CompatStatus : Type 0 where
  compat_ok incompatible other_compat : CompatStatus

pub record CompatFinding : Type 0 where
  pub status : CompatStatus
  pub required : Str
  pub engine : Str
  pub reason : Str

pub record ReleasePlan : Type 0 where
  pub name : Str
  pub action : Action
  pub wave : ℕ
  pub ref : Str
  pub to_version : Str
  pub current_manifest : Str
  pub manifest : Str
  pub compat : CompatFinding
  -- `release.Compat.Message("")`
  pub compat_message : Str

abbrev pub is_unchanged : Action → Bool
is_unchanged unchanged = true
is_unchanged _ = false

abbrev is_incompatible : CompatStatus → Bool
is_incompatible incompatible = true
is_incompatible _ = false

abbrev pub is_install : Action → Bool
is_install install = true
is_install _ = false

-- `checkCompat`: the messages of the refusal, if there are any.
unfoldable pub refused : List ReleasePlan → List Str
refused [] = []
refused (r ∷ rs) =
    let rest = refused rs in
    if is_unchanged r.action
    then rest
    else if is_incompatible r.compat.status
    then r.compat_message ∷ rest
    else rest

abbrev pub check_compat : List ReleasePlan → Option (List Str)
check_compat plan = elim (refused plan) [ [] ↦ none | m ∷ ms ↦ some (m ∷ ms) ]

unfoldable pub unsettled : List ReleasePlan → List Str
unsettled [] = []
unsettled (r ∷ rs) =
    let rest = unsettled rs in if is_unchanged r.action then rest else r.name ∷ rest

-- `Reconciler.installing`, by the number of an entry; a list of it stands for the map.
abbrev pub Installing : Type 0
Installing = List (ℕ × List Str)

unfoldable pub all_marks : Installing → List Str
all_marks [] = []
all_marks ((e, names) ∷ rest) = names ++ all_marks rest

-- `slices.Min`
unfoldable pub min_name : Str → List Str → Str
min_name m [] = m
min_name m (x ∷ xs) = min_name (if compare_str m x then m else x) xs

unfoldable pub clear_marks : ℕ → Installing → Installing
clear_marks e = keep (λ (k, ns). not (k == e))

-- The refusal names the release, and the least of those that it collides with.
pub data Refusal : Type 0 where
  collides_with : Str → Str → Refusal

module _ (lower : ℕ → ℕ) where
  -- The loop of `claimInstalls`, on the names so far.
  unfoldable pub collect_installs :
      Installing → List ReleasePlan → List Str → Outcome Refusal (List Str)
  collect_installs marks [] mine = ok mine
  collect_installs marks (r ∷ rs) mine =
      let rest = collect_installs marks rs in
      if not (is_install r.action)
      then rest mine
      else elim (keep (releases_collide lower r.name) (all_marks marks)) [
        | [] ↦ rest (mine ++ (r.name ∷ []))
        | h ∷ hs ↦ err (collides_with r.name (min_name h hs))
      ]

  -- `claimInstalls`; `clear_marks` is the call that it returns.
  unfoldable pub claim_installs : ℕ → List ReleasePlan → Installing → Outcome Refusal Installing
  claim_installs e plan marks = elim (collect_installs marks plan []) [
    | err x ↦ err x
    | ok mine ↦ ok ((e, mine) ∷ clear_marks e marks)
  ]

-- `waveGroups`: the group that is open, last release first, and the rest.
unfoldable pub group_from :
    ReleasePlan → List ReleasePlan → List ReleasePlan → List (List ReleasePlan)
group_from first group [] = group ∷ []
group_from first group (r ∷ rs) =
    let joined = group_from first (group ++ (r ∷ [])) rs in
    let split = group_from r (r ∷ []) rs in if r.wave == first.wave then joined else group ∷ split

unfoldable pub wave_groups : List ReleasePlan → List (List ReleasePlan)
wave_groups [] = []
wave_groups (r ∷ rs) = group_from r (r ∷ []) rs
