-- ===== src/Reconcile/Installs/Compat.antt =====
-- When a plan may be applied and when it changes nothing: checkCompat and unsettled, in
-- reconcile/reconcile.go.
use swarmcli_cd.Base.{◌≡◌, ◌≢◌, ◌↔◌, none, List, [], ◌∷◌, arith, All}
use swarmcli_cd.Reconcile.Installs.{
  unchanged, incompatible, ReleasePlan, refused, check_compat, unsettled,
}

-- A release that is left alone, or whose chart does not need another engine.
abbrev pub IsRunnable : ReleasePlan → Type 0
IsRunnable r = r.action ≢ unchanged → r.compat.status ≢ incompatible

refused_iff : (plan : List ReleasePlan) → (refused plan ≡ []) ↔ All IsRunnable plan
unfolding refused
refused_iff [] = ground arith
refused_iff (r ∷ rs) = ground (arith, refused_iff rs)

unsettled_iff :
    (plan : List ReleasePlan)
    → (unsettled plan ≡ []) ↔ All (λ (r : ReleasePlan). r.action ≡ unchanged) plan
unfolding unsettled
unsettled_iff [] = ground arith
unsettled_iff (r ∷ rs) = ground (arith, unsettled_iff rs)

-- A plan is let through exactly if each release that it would change can run on this engine, and it
-- is settled exactly if it would change none.
pub check_compat_iff :
    (plan : List ReleasePlan)
    → ((check_compat plan ≡ none) ↔ All IsRunnable plan)
      × ((unsettled plan ≡ []) ↔ All (λ (r : ReleasePlan). r.action ≡ unchanged) plan)
check_compat_iff plan = (ground (arith, refused_iff plan), unsettled_iff plan)
