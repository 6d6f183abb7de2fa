-- ===== src/Drift.antt =====
-- drift/drift.go: what a plan says of an application's sync.
pub mod Agreement
use swarmcli_cd.Base.{
  ℕ, ◌+◌, Bool, Option, none, some, List, [], ◌∷◌, Str, is_empty, ltb, if◌then◌else◌,
}
use swarmcli_cd.Application.{SyncState, synced, out_of_sync}
use swarmcli_cd.Reconcile.Installs.{
  Action, CompatStatus, compat_ok, incompatible, CompatFinding, ReleasePlan, is_unchanged,
}

-- application.CompatState; `compat_unknown` is the empty string.
pub data CompatState : Type 0 where
  compat_unknown fits does_not_fit : CompatState

pub record Compat : Type 0 where
  pub status : CompatState
  pub required : Str
  pub engine : Str
  pub reason : Str

pub record ReleaseStatus : Type 0 where
  pub name : Str
  pub chart : Str
  pub version : Str
  pub action : Action
  pub sync : SyncState
  pub compat : Option Compat
  pub wave : ℕ

pub record Summary : Type 0 where
  pub install : ℕ
  pub upgrade : ℕ
  pub unchanged : ℕ

pub record Sync : Type 0 where
  pub state : SyncState
  pub summary : Summary

pub record ReleaseDiff : Type 0 where
  pub release : Str
  pub action : Action
  pub diff : Str

abbrev pub compat_state : CompatStatus → CompatState
compat_state compat_ok = fits
compat_state incompatible = does_not_fit
compat_state _ = compat_unknown

abbrev pub compat_of : CompatFinding → Option Compat
compat_of f =
    if is_empty f.required
    then none
    else some (record {
      status = compat_state f.status;
      required = f.required;
      engine = f.engine;
      reason = f.reason;
    })

unfoldable pub release_status : ReleasePlan → ReleaseStatus
release_status r = record {
  name = r.name;
  chart = r.ref;
  version = r.to_version;
  action = r.action;
  sync = if is_unchanged r.action then synced else out_of_sync;
  compat = compat_of r.compat;
  wave = r.wave;
}

unfoldable pub release_statuses : List ReleasePlan → List ReleaseStatus
release_statuses [] = []
release_statuses (r ∷ rs) = release_status r ∷ release_statuses rs

-- `counts` is the chart engine's `Plan.Counts`.
module _ (counts : List ReleasePlan → Summary) where
  unfoldable pub from_plan : List ReleasePlan → Sync × List ReleaseStatus
  from_plan plan =
      let c = counts plan in
      (
        record {
          state = if ltb 0 (c.install + c.upgrade) then out_of_sync else synced;
          summary = c;
        },
        release_statuses plan,
      )

-- `lines` is the chart engine's `textdiff.Lines`.
module _ (lines : Str → Str → Str) where
  unfoldable pub diffs : List ReleasePlan → List ReleaseDiff
  diffs [] = []
  diffs (r ∷ rs) =
      let rest = diffs rs in
      if is_unchanged r.action
      then rest
      else record {
        release = r.name;
        action = r.action;
        diff = lines r.current_manifest r.manifest;
      }
        ∷ rest
