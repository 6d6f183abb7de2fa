-- ===== src/Prune/Sweep/Emptied.antt =====
-- When an application is reported as pruned: prune/prune.go, Departed and stillListed.
use swarmcli_cd.Base.{
  ℕ, suc, ◌≡◌, ◌≢◌, ◌↔◌, sym, subst, ◌⊎◌, inl, inr, Bool, Option, none, some, List, [], ◌∷◌, ◌++◌,
  arith, Str, ok, Outcome-cases, Option-cases, Bool-cases, All, In, elem_iff, append_assoc,
  append-nil, if◌then◌else◌, ◌+◌, ◌∙◌,
}
use mathlib.Core.Path.{subst₂}
use native.Mathlib.Nat.{zero-add}
use swarmcli_cd.Prune.Calls.{list_releases, warn_own_stack, Trace, Error, is_own_stack, Swarm}
use swarmcli_cd.Prune.Rule.{Release, DepartedApp}
use swarmcli_cd.Prune.Sweep.{
  Failure, release_names, still_present, uninstall_release, uninstall_all, still_listed, emptied,
  judge, sweep_app,
}

-- The uninstall error of each release that was not the controller's own stack.
abbrev pub failures : List (Str × Option Error) → List Failure
failures [] = []
failures ((r, none) ∷ os) = failures os
failures ((r, some e) ∷ os) =
    let rest = failures os in
    if is_own_stack e then rest else record { release = r; error = e } ∷ rest

abbrev pub own_stacks : List (Str × Option Error) → ℕ
own_stacks [] = 0
own_stacks ((r, none) ∷ os) = own_stacks os
own_stacks ((r, some e) ∷ os) =
    let rest = own_stacks os in if is_own_stack e then suc rest else rest

-- None of the failed releases is still in the listing.
abbrev pub AllGone : List Str → List Failure → Type 0
AllGone present fs = All (λ (f : Failure). ¬ (In f.release present)) fs

still_present_iff :
    (present : List Str) (fs : List Failure) → (still_present present fs ≡ []) ↔ AllGone present fs
unfolding still_present
still_present_iff present [] = ground arith
still_present_iff present (f ∷ fs) =
    ground (arith, elem_iff f.release present, still_present_iff present fs)

module _ (s : Swarm) (purges : Bool) where
  abbrev after : Str → Str → Option Error → Trace → Trace
  after app r none tr = tr
  after app r (some e) tr = if is_own_stack e then warn_own_stack app r ∷ tr else tr

  -- Each release with what its uninstall returned, in turn.
  pub outcomes : Str → List Str → Trace → List (Str × Option Error)
  outcomes app [] tr = []
  outcomes app (r ∷ rs) tr =
      let (e, tr1) = uninstall_release s purges app r tr in
      (r, e) ∷ outcomes app rs (after app r e tr1)

  uninstall_all-outcomes :
      (app : Str) (rs : List Str) (failed : List Failure) (left : ℕ) (tr : Trace)
      → ((uninstall_all s purges app rs failed left tr).0.0
          ≡ failed ++ failures (outcomes app rs tr))
        × ((uninstall_all s purges app rs failed left tr).0.1
            ≡ left + own_stacks (outcomes app rs tr))
  unfolding uninstall_all outcomes
  uninstall_all-outcomes app [] failed left tr = (sym (append-nil failed), omega arith)
  uninstall_all-outcomes app (r ∷ rs) failed left tr =
      let u = uninstall_release s purges app r tr in
      elim (Option-cases u.0) [
        | inl e ↦ ground (arith, uninstall_all-outcomes app rs failed left u.1)
        | inr (x, e) ↦ elim (Bool-cases (is_own_stack x)) [
          | inl b ↦
              ground (
                arith,
                uninstall_all-outcomes app rs failed (suc left) (warn_own_stack app r ∷ u.1),
              )
          | inr b ↦ ground (
            arith,
            append_assoc failed (record { release = r; error = x } ∷ [])
                (failures (outcomes app rs u.1)),
            uninstall_all-outcomes app rs (failed ++ (record { release = r; error = x } ∷ [])) left
                u.1,
          )
        ]
      ]

  -- The listing after the failures, of which it has none left.
  abbrev pub Relisted : List Failure → Trace → Type 0
  Relisted fs tr =
      (rels : List Release) × (s.releases (list_releases ∷ tr) ≡ ok rels)
      × AllGone (release_names rels) fs

  judge_emptied_iff :
      (fs : List Failure) (left : ℕ) (tr : Trace)
      → ((judge s purges fs left tr).0 ≡ emptied)
        ↔ (((fs ≡ []) × (left ≡ 0)) ⊎ ((fs ≢ []) × Relisted fs tr))
  unfolding judge still_listed
  judge_emptied_iff [] left tr = ground arith
  judge_emptied_iff (f ∷ fs) left tr = elim (Outcome-cases (s.releases (list_releases ∷ tr))) [
    | inr (x, e) ↦ ground arith
    | inl (rels, e) ↦
        let i = still_present_iff (release_names rels) (f ∷ fs) in
        (
          λ h. inr (λ k. cc, (rels, e, i.0 (ground arith))),
          elim [
            | inl (k, z) ↦ cc
            | inr (ne, (rels', e', g)) ↦
                let same : rels' ≡ rels = cc in
                let g' : AllGone (release_names rels) (f ∷ fs) =
                  subst (λ rs. AllGone (release_names rs) (f ∷ fs)) same g in
                ground (arith, i.1 g')
          ],
        )
  ]

  -- An application is reported as pruned in exactly two cases: no uninstall failed and none met the
  -- controller's own stack; or some failed for another reason, and a listing taken afterwards has
  -- none of those releases. In the second case it is not asked whether an own stack was left.
  pub sweep_app_emptied_iff :
      (app : DepartedApp) (tr : Trace)
      → let os = outcomes app.name app.releases tr in
        let tr1 = (uninstall_all s purges app.name app.releases [] 0 tr).1 in
        ((sweep_app s purges app tr).0 ≡ emptied) ↔ (
          ((failures os ≡ []) × (own_stacks os ≡ 0))
          ⊎ ((failures os ≢ []) × Relisted (failures os) tr1))
  unfolding sweep_app
  sweep_app_emptied_iff app tr =
      let (f, n) = uninstall_all-outcomes app.name app.releases [] 0 tr in
      let u = uninstall_all s purges app.name app.releases [] 0 tr in
      let j = judge_emptied_iff u.0.0 u.0.1 u.1 in
      subst₂
        (λ fs k.
          ((sweep_app s purges app tr).0 ≡ emptied)
          ↔ (((fs ≡ []) × (k ≡ 0)) ⊎ ((fs ≢ []) × Relisted fs u.1)))
        f (n ∙ zero-add _) j
