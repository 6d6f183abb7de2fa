-- ===== src/Tests/Members.antt =====
-- The reconciler's members, waits, marks and waves at concrete inputs.
use swarmcli_cd.Base.{
  ◌⊎◌, ◌≢◌, true, All, ◌↔◌, ℕ, ◌+◌, ◌≡◌, refl, false, some, List, [], ◌∷◌, Str, str, arith, ok, seq,
  leb, ◌&&◌, if◌then◌else◌, cut_prefix,
}
use swarmcli_cd.Application.{synced}
use swarmcli_cd.Drift.{ReleaseStatus, from_plan, diffs}
use swarmcli_cd.Drift.Agreement.{
  count_actions, diff_names, status_names, plan_names, from_plan_agrees,
}
use swarmcli_cd.Owner.{releases_collide}
use swarmcli_cd.Reconcile.Membership.{
  free, put, put_name, working, taken, State, start, add, set_lease, draining, Step, Reachable,
}
use swarmcli_cd.Reconcile.Membership.Drained.{Member, quiet_when_drained}
use swarmcli_cd.Reconcile.Hold.{Happening, ended, found, replaced, remember, check_reproducible}
use swarmcli_cd.Reconcile.Hold.Forgotten.{standing, streak, remember_exact}
use swarmcli_cd.Reconcile.Installs.{
  install, compat_ok, ReleasePlan, unsettled, Installing, claim_installs, collect_installs,
  all_marks, clear_marks,
}
use swarmcli_cd.Reconcile.Installs.Marks.{Marked, Installs, AllApart, claim_installs-AllApart}

abbrev ascii_lower : ℕ → ℕ
ascii_lower c = if leb b'A' c && leb c b'Z' then c + 32 else c

abbrev planned : Str → ℕ → ReleasePlan
planned n w = record {
  name = n;
  action = install;
  wave = w;
  ref = str "charts/web";
  to_version = str "1.2.0";
  current_manifest = [];
  manifest = str "services:";
  compat = record { status = compat_ok; required = []; engine = []; reason = [] };
  compat_message = [];
}

abbrev plan : List ReleasePlan
plan = planned (str "web") 0 ∷ planned (str "db") 0 ∷ planned (str "jobs") 1 ∷ []

abbrev no_lines : Str → Str → Str
no_lines a b = []

from_plan_agrees_example :
    let (sync, releases) = from_plan count_actions plan in
    ((sync.state ≡ synced) ↔ (unsettled plan ≡ []))
    × ((sync.state ≡ synced) ↔ All (λ (x : ReleaseStatus). x.sync ≡ synced) releases)
    × (status_names releases ≡ plan_names plan)
    × (diff_names (diffs no_lines plan) ≡ unsettled plan)
from_plan_agrees_example = from_plan_agrees no_lines count_actions (λ p. refl) plan

abbrev history : List Happening
history = ended true ∷ found (str "abc") (str "web" ∷ []) ∷ replaced ∷ ended true ∷ []

remember_exact_example :
    ((check_reproducible (str "abc") (remember history) ≡ some (str "web" ∷ []))
      ↔ (standing history ≡ (str "abc", str "web" ∷ [])))
    × ((remember history).failures ≡ streak history)
remember_exact_example = remember_exact history (str "abc") (str "web" ∷ []) (λ e. ground arith)

abbrev marks : Installing
marks = (1, str "mail" ∷ []) ∷ []

abbrev marked : Installing
marked = (2, str "web" ∷ str "db" ∷ str "jobs" ∷ []) ∷ marks

marks_apart : AllApart ascii_lower marks
unfolding all_marks
marks_apart = (λ x y i j. elim j [ ], tt)

plan_claimed : claim_installs ascii_lower 2 plan marks ≡ ok marked
unfolding claim_installs collect_installs all_marks clear_marks releases_collide seq cut_prefix
plan_claimed = refl

claim_installs-AllApart_example :
    AllApart ascii_lower marked
    × ((k : ℕ) (n : Str)
        → Marked k n marked ↔ (((k ≡ 2) × Installs plan n) ⊎ ((k ≢ 2) × Marked k n marks)))
claim_installs-AllApart_example =
    claim_installs-AllApart ascii_lower 2 plan marks marked marks_apart plan_claimed

-- One application is added, and its first reconcile begins.
abbrev member : State
member = record start {
  next = 1;
  name = put start.name 0 (str "shop");
  apps = put_name start.apps (str "shop") (some 0);
  lease = put start.lease 0 free;
  cancelled = put start.cancelled 0 false;
}

abbrev reconciling : State
reconciling = set_lease 0 working (set_lease 0 taken member)

shop_added : add (str "shop") start ≡ some member
unfolding add
shop_added = refl

reconciling-Reachable : Reachable reconciling
unfolding set_lease
reconciling-Reachable =
    Reachable.after (set_lease 0 taken member) reconciling
      (Reachable.after member (set_lease 0 taken member)
        (Reachable.after start member Reachable.at_start
          (Step.added (str "shop") start member shop_added))
        (Step.grab 0 member (omega arith) refl))
      (Step.begin 0 (set_lease 0 taken member) refl refl)

none_leaving : reconciling.leaving ≡ []
unfolding set_lease
none_leaving = refl

none_draining : (draining reconciling).0 ≡ []
unfolding set_lease draining
none_draining = refl

shop_working : reconciling.lease 0 ≡ working
unfolding set_lease
shop_working = refl

quiet_when_drained_example : Member reconciling 0
quiet_when_drained_example =
    quiet_when_drained reconciling reconciling-Reachable none_leaving none_draining 0 shop_working
