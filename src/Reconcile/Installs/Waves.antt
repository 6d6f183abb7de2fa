-- ===== src/Reconcile/Installs/Waves.antt =====
-- What waveGroups, in reconcile/reconcile.go, makes of a plan.
use swarmcli_cd.Base.{
  ℕ, ◌≡◌, ◌≢◌, ◌∙◌, refl, List, [], ◌∷◌, ◌++◌, append_assoc, arith, All, ◌==◌, ==_iff, Bool-cases,
  inl, inr,
}
use swarmcli_cd.Reconcile.Installs.{ReleasePlan, group_from, wave_groups}

abbrev pub concat : List (List ReleasePlan) → List ReleasePlan
concat [] = []
concat (g ∷ gs) = g ++ concat gs

-- Releases of one wave, and at least one.
abbrev pub IsWave : ℕ → List ReleasePlan → Type 0
IsWave w g = (g ≢ []) × All (λ (r : ReleasePlan). r.wave ≡ w) g

-- The first of the groups, if there is one, begins with another wave.
abbrev pub BeginsOther : ℕ → List (List ReleasePlan) → Type 0
BeginsOther w ((r ∷ rs) ∷ gs) = r.wave ≢ w
BeginsOther w _ = Unit

abbrev pub AreWaves : List (List ReleasePlan) → Type 0
AreWaves [] = Unit
AreWaves (g ∷ gs) = ((w : ℕ) × IsWave w g × BeginsOther w gs) × AreWaves gs

All-snoc :
    (P : ReleasePlan → Type 0) (x : ReleasePlan) (g : List ReleasePlan)
    → All P g
    → P x
    → All P (g ++ (x ∷ []))
All-snoc P x [] h p = (p, tt)
All-snoc P x (y ∷ g) h p = (h.0, All-snoc P x g h.1 p)

snoc_not_nil : (g : List ReleasePlan) (x : ReleasePlan) → (g ++ (x ∷ [])) ≢ []
snoc_not_nil [] x = ground arith
snoc_not_nil (y ∷ g) x = ground arith

concat-group_from :
    (first : ReleasePlan) (group rest : List ReleasePlan)
    → concat (group_from first group rest) ≡ group ++ rest
unfolding group_from
concat-group_from first group [] = refl
concat-group_from first group (r ∷ rs) = elim (Bool-cases (r.wave == first.wave)) [
  | inl d ↦ rw (d) (concat-group_from first (group ++ (r ∷ [])) rs ∙ append_assoc group (r ∷ []) rs)
  | inr d ↦ rw (d, concat-group_from r (r ∷ []) rs)
]

-- The open group comes out first, grown by what follows it.
group_from-begins :
    (w : ℕ) (first : ReleasePlan) (x : ReleasePlan) (group rest : List ReleasePlan)
    → x.wave ≢ w
    → BeginsOther w (group_from first (x ∷ group) rest)
unfolding group_from
group_from-begins w first x group [] h = h
group_from-begins w first x group (r ∷ rs) h = elim (Bool-cases (r.wave == first.wave)) [
  | inl d ↦ rw (d) (group_from-begins w first x (group ++ (r ∷ [])) rs h)
  | inr d ↦ rw (d) h
]

group_from-AreWaves :
    (first : ReleasePlan) (group rest : List ReleasePlan)
    → IsWave first.wave group
    → AreWaves (group_from first group rest)
unfolding group_from
group_from-AreWaves first group [] h = ((first.wave, h, tt), tt)
group_from-AreWaves first group (r ∷ rs) h = elim (Bool-cases (r.wave == first.wave)) [
  | inl d ↦ rw (d) (
      group_from-AreWaves first (group ++ (r ∷ [])) rs (
        snoc_not_nil group r,
        All-snoc (λ (x : ReleasePlan). x.wave ≡ first.wave) r group h.1
            (ground (arith, ==_iff r.wave first.wave)),
      ))
  | inr d ↦ rw (d) (
    (
      first.wave,
      h,
      group_from-begins first.wave r r [] rs (ground (arith, ==_iff r.wave first.wave)),
    ),
    group_from-AreWaves r (r ∷ []) rs (ground arith),
  )
]

-- The groups are the plan's releases in their order, cut into runs: each group has at least one
-- release, one wave for all, and another wave than the group after it begins with.
pub wave_groups_exact :
    (plan : List ReleasePlan) → (concat (wave_groups plan) ≡ plan) × AreWaves (wave_groups plan)
unfolding wave_groups
wave_groups_exact [] = (refl, tt)
wave_groups_exact (r ∷ rs) =
    (concat-group_from r (r ∷ []) rs, group_from-AreWaves r (r ∷ []) rs (ground arith))
