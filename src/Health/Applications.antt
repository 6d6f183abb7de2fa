-- ===== src/Health/Applications.antt =====
-- How the releases of an application add up: health/health.go, Application.
use swarmcli_cd.Base.{
  ℕ, ◌+◌, ◌≤◌, ◌≡◌, ◌≢◌, ◌⊎◌, inl, inr, refl, List, [], ◌∷◌, ◌++◌, arith, Str, str, In,
}
use swarmcli_cd.Application.{healthy, Health, ReleaseHealth}
use swarmcli_cd.Health.{rank, roll_release, roll_releases, application_health}

-- The counts of the releases, added up.
abbrev pub sum_healthy : List ReleaseHealth → ℕ
sum_healthy [] = 0
sum_healthy (r ∷ rs) = r.health.services.healthy_count + sum_healthy rs

abbrev pub sum_total : List ReleaseHealth → ℕ
sum_total [] = 0
sum_total (r ∷ rs) = r.health.services.total + sum_total rs

abbrev pub release_text : ReleaseHealth → Str
release_text r = str "release '" ++ (r.name ++ (str "': " ++ r.health.message))

abbrev pub ReleasesBelow : ℕ → List ReleaseHealth → Type 0
ReleasesBelow n [] = Unit
ReleasesBelow n (r ∷ rs) = (rank r.health.state ≤ n) × ReleasesBelow n rs

roll_releases_mono :
    (rels : List ReleaseHealth) (out : Health)
    → rank out.state ≤ rank (roll_releases out rels).state
unfolding roll_releases roll_release
roll_releases_mono [] out = omega arith
roll_releases_mono (r ∷ rs) out = ground (arith, roll_releases_mono rs (roll_release out r))

roll_release_lem :
    (r : ReleaseHealth) (out : Health)
    → let h = roll_release out r in
      (rank r.health.state ≤ rank h.state)
      × (((h.state ≡ out.state) × (h.message ≡ out.message))
          ⊎ ((h.state ≡ r.health.state) × (h.message ≡ release_text r)))
      × (h.services.healthy_count ≡ out.services.healthy_count + r.health.services.healthy_count)
      × (h.services.total ≡ out.services.total + r.health.services.total)
unfolding roll_release
roll_release_lem r out = ground arith

roll_releases_lem :
    (rels : List ReleaseHealth) (out : Health)
    → let h = roll_releases out rels in
      ReleasesBelow (rank h.state) rels
      × (((h.state ≡ out.state) × (h.message ≡ out.message))
          ⊎ ((r : ReleaseHealth) × In r rels
              × (r.health.state ≡ h.state)
              × (h.message ≡ release_text r)))
      × (h.services.healthy_count ≡ out.services.healthy_count + sum_healthy rels)
      × (h.services.total ≡ out.services.total + sum_total rels)
unfolding roll_releases
roll_releases_lem [] out = (tt, inl (refl, refl), omega arith, omega arith)
roll_releases_lem (r ∷ rs) out =
    let next = roll_release out r in
    let (below, shown, h, n) = roll_releases_lem rs next in
    let (up, from, h1, n1) = roll_release_lem r out in
    let mono = roll_releases_mono rs next in
    (
      (omega arith, below),
      elim shown [
        | inr (x, i, e, m) ↦ inr (x, inr i, e, m)
        | inl (e, m) ↦ elim from [
          | inl (e1, m1) ↦ inl (cc, cc)
          | inr (e1, m1) ↦ inr (r, inl refl, cc, cc)
        ]
      ],
      omega arith,
      omega arith,
    )

-- An application with releases: no release needs more attention than the state shown, the message
-- names a release in that state unless all is well, and the counts are the sums of the releases'.
pub application_health-rollup :
    (rels : List ReleaseHealth)
    → rels ≢ []
    → let h = application_health rels in
      ReleasesBelow (rank h.state) rels
      × (((h.state ≡ healthy) × (h.message ≡ []))
          ⊎ ((r : ReleaseHealth) × In r rels
              × (r.health.state ≡ h.state)
              × (h.message ≡ release_text r)))
      × (h.services.healthy_count ≡ sum_healthy rels)
      × (h.services.total ≡ sum_total rels)
unfolding application_health
application_health-rollup [] n = absurd (n refl)
application_health-rollup (r ∷ rs) n =
    let (below, shown, h, k) = roll_releases_lem (r ∷ rs) (record {
      state = healthy;
      message = [];
      services = record { healthy_count = 0; total = 0 };
    }) in
    (below, shown, omega arith, omega arith)
