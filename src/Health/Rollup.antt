-- ===== src/Health/Rollup.antt =====
-- A rollup shows the state that most needs attention, and counts: health/health.go.
use swarmcli_cd.Base.{
  ℕ, suc, ◌+◌, ◌≤◌, ◌<◌, ap, ◌≡◌, ◌≢◌, ◌↔◌, ◌⊎◌, inl, inr, refl, true, false, is_empty, List, [],
  ◌∷◌, ◌++◌, arith, Str, str, length, length-append, In, Bool-cases, if◌then◌else◌, ltb,
}
use swarmcli_cd.Application.{HealthState, healthy, ServiceStatus}
use swarmcli_cd.Health.{
  Engine, rank, is_healthy, Input, service_health, status_of, Tally, tally_service, tally_services,
  no_tally, release,
}

-- An independent count of the healthy services.
abbrev pub count_healthy : List ServiceStatus → ℕ
count_healthy [] = 0
count_healthy (x ∷ xs) =
    let rest = count_healthy xs in if is_healthy x.health then suc rest else rest

count_healthy-snoc :
    (xs : List ServiceStatus) (x : ServiceStatus)
    → count_healthy (xs ++ (x ∷ [])) ≡ count_healthy xs + (if is_healthy x.health then 1 else 0)
count_healthy-snoc [] x = ground arith
count_healthy-snoc (y ∷ ys) x = ground (arith, count_healthy-snoc ys x)

abbrev pub service_text : ServiceStatus → Str
service_text x = str "service '" ++ (x.name ++ (str "': " ++ x.message))

abbrev pub AllBelow : ℕ → List ServiceStatus → Type 0
AllBelow n [] = Unit
AllBelow n (x ∷ xs) = (rank x.health ≤ n) × AllBelow n xs

AllBelow-snoc :
    (m n : ℕ) (xs : List ServiceStatus) (x : ServiceStatus)
    → m ≤ n
    → AllBelow m xs
    → rank x.health ≤ n
    → AllBelow n (xs ++ (x ∷ []))
AllBelow-snoc m n [] x l h k = (k, tt)
AllBelow-snoc m n (y ∷ ys) x l h k = (omega arith, AllBelow-snoc m n ys x l h.1 k)

In-snoc :
    (xs : List ServiceStatus) (x y : ServiceStatus) → In y xs ⊎ (y ≡ x) → In y (xs ++ (x ∷ []))
In-snoc [] x y (inl h) = absurd h
In-snoc [] x y (inr e) = inl e
In-snoc (z ∷ zs) x y (inl (inl e)) = inl e
In-snoc (z ∷ zs) x y (inl (inr h)) = inr (In-snoc zs x y (inl h))
In-snoc (z ∷ zs) x y (inr e) = inr (In-snoc zs x y (inr e))

-- What a rollup over these statuses is to show.
pub record IsRollup (state : HealthState) (message : Str) (healthy_services : ℕ)
    (xs : List ServiceStatus) : Type 0 where
  pub worst : AllBelow (rank state) xs
  pub shown :
      ((state ≡ healthy) × (message ≡ []))
      ⊎ ((x : ServiceStatus) × In x xs × (x.health ≡ state) × (message ≡ service_text x))
  pub counted : healthy_services ≡ count_healthy xs

count_healthy-le : (xs : List ServiceStatus) → count_healthy xs ≤ length xs
count_healthy-le [] = omega arith
count_healthy-le (x ∷ xs) = ground (arith, count_healthy-le xs)

all_healthy_iff : (xs : List ServiceStatus) → AllBelow 0 xs ↔ (count_healthy xs ≡ length xs)
unfolding rank
all_healthy_iff [] = ground arith
all_healthy_iff (x ∷ xs) = ground (arith, all_healthy_iff xs, count_healthy-le xs)

unhealthy_uncounted :
    (xs : List ServiceStatus) (x : ServiceStatus)
    → In x xs
    → x.health ≢ healthy
    → count_healthy xs < length xs
unhealthy_uncounted [] x i h = absurd i
unhealthy_uncounted (y ∷ ys) x (inl e) h =
    ground (arith, count_healthy-le ys, ap (λ (z : ServiceStatus). z.health) e)
unhealthy_uncounted (y ∷ ys) x (inr i) h = ground (arith, unhealthy_uncounted ys x i h)

-- Of a rollup, Healthy means that every service is.
healthy_rollup_iff :
    (state : HealthState) (message : Str) (n : ℕ) (xs : List ServiceStatus)
    → IsRollup state message n xs
    → (state ≡ healthy) ↔ (n ≡ length xs)
unfolding rank
healthy_rollup_iff healthy m n xs h = ground (arith, all_healthy_iff xs, h.worst, h.counted)
healthy_rollup_iff _ m n xs h = elim h.shown [
  | inl e ↦ ground arith
  | inr (x, i, e, t) ↦ ground (arith, h.counted, unhealthy_uncounted xs x i)
]

not_empty {ℓ} : {A : Type ℓ} (xs : List A) → xs ≢ [] → is_empty xs ≡ false
not_empty [] h = absurd (h refl)
not_empty (x ∷ xs) h = refl

module _ (engine : Engine) where
  open engine use {State}

  tally_service-IsRollup :
      (input : Input engine) (s : State) (t : Tally engine)
      → IsRollup t.worst t.message t.healthy_count t.statuses
      → let u = tally_service engine input t s in
        IsRollup u.worst u.message u.healthy_count u.statuses
  unfolding tally_service
  tally_service-IsRollup input s t h =
      let x = status_of engine s (service_health engine s input) in
      elim (Bool-cases (ltb (rank t.worst) (rank (service_health engine s input).0))) [
        | inl b ↦ record {
          worst = rw b (
              AllBelow-snoc (rank t.worst) (rank x.health) t.statuses x (ground arith) h.worst
                (omega arith));
          shown = rw b (inr (x, In-snoc t.statuses x x (inr refl), refl, refl));
          counted = rw count_healthy-snoc (ground (arith, h.counted));
        }
        | inr b ↦ record {
          worst = rw b (
              AllBelow-snoc (rank t.worst) (rank t.worst) t.statuses x (omega arith) h.worst
                (ground arith));
          shown = rw b (later h.shown x);
          counted = rw count_healthy-snoc (ground (arith, h.counted));
        }
      ]
    where
      later :
          ((t.worst ≡ healthy) × (t.message ≡ []))
            ⊎ ((x : ServiceStatus) × In x t.statuses
                × (x.health ≡ t.worst)
                × (t.message ≡ service_text x))
          → (z : ServiceStatus)
          → ((t.worst ≡ healthy) × (t.message ≡ []))
            ⊎ ((x : ServiceStatus) × In x (t.statuses ++ (z ∷ []))
                × (x.health ≡ t.worst)
                × (t.message ≡ service_text x))
      later (inl h) z = inl h
      later (inr (x, i, e, m)) z = inr (x, In-snoc t.statuses z x (inl i), e, m)

  tally_services-IsRollup :
      (input : Input engine) (ss : List State) (t : Tally engine)
      → IsRollup t.worst t.message t.healthy_count t.statuses
      → let u = tally_services engine input t ss in
        IsRollup u.worst u.message u.healthy_count u.statuses
  unfolding tally_services
  tally_services-IsRollup input [] t h = h
  tally_services-IsRollup input (s ∷ ss) t h =
      tally_services-IsRollup input ss (tally_service engine input t s)
        (tally_service-IsRollup input s t h)

  length-tally_services :
      (input : Input engine) (ss : List State) (t : Tally engine)
      → length (tally_services engine input t ss).statuses ≡ length t.statuses + length ss
  unfolding tally_services tally_service
  length-tally_services input [] t = omega arith
  length-tally_services input (s ∷ ss) t =
      let x = status_of engine s (service_health engine s input) in
      omega (
        arith,
        length-tally_services input ss (tally_service engine input t s),
        length-append t.statuses (x ∷ []),
      )

  release_read :
      (input : Input engine)
      → input.installed ≡ true
      → input.read_failed ≡ false
      → input.states ≢ []
      → let t = tally_services engine input (no_tally engine) input.states in
        release engine input ≡ (
          record {
            state = t.worst;
            message = t.message;
            services = record { healthy_count = t.healthy_count; total = length input.states };
          },
          t.statuses,
        )
  unfolding release
  release_read input i r n = rw (i, r, not_empty input.states n)

  -- A release that was deployed and read, with services: there is a status for each service, no
  -- service needs more attention than the state shown, the message names a service in that state
  -- unless all is well, the counts are the healthy services of all, and the state is Healthy exactly
  -- if the two counts agree.
  pub release-IsRollup :
      (input : Input engine)
      → input.installed ≡ true
      → input.read_failed ≡ false
      → input.states ≢ []
      → let (h, xs) = release engine input in
        IsRollup h.state h.message h.services.healthy_count xs
        × (length xs ≡ length input.states)
        × (h.services.total ≡ length input.states)
        × ((h.state ≡ healthy) ↔ (h.services.healthy_count ≡ h.services.total))
  release-IsRollup input i r n =
      let t = tally_services engine input (no_tally engine) input.states in
      let roll : IsRollup t.worst t.message t.healthy_count t.statuses =
        tally_services-IsRollup input input.states (no_tally engine)
          (record { worst = tt; shown = inl (refl, refl); counted = refl }) in
      let len : length t.statuses ≡ length input.states =
        omega (arith, length-tally_services input input.states (no_tally engine)) in
      rw (release_read input i r n) (
        roll,
        len,
        refl,
        rw (← len) (healthy_rollup_iff t.worst t.message t.healthy_count t.statuses roll),
      )
