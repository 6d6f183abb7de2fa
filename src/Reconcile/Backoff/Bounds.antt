-- ===== src/Reconcile/Backoff/Bounds.antt =====
-- The bounds of backoff, in reconcile/reconcile.go.
use swarmcli_cd.Base.{
  ℕ, zero, suc, ap, ◌*◌, ◌%◌, ◌≤◌, ◌<◌, ◌≡◌, ltb, leb, if◌then◌else◌, arith, refl, ◌∙◌,
}
use swarmcli_cd.Reconcile.Backoff.{max_backoff, word, shift_left, backoff}

-- Doubled that many times, without a bound on the number.
unfoldable pub doubled : ℕ → ℕ → ℕ
doubled d zero = d
doubled d (suc n) = doubled (d * 2) n

abbrev pub min : ℕ → ℕ → ℕ
min a b = if leb a b then a else b

-- After a failure the wait is positive and at most 30 minutes, whatever the interval, also where the
-- shift wraps around.
pub backoff_bounded :
    (interval failures : ℕ)
    → 0 < failures
    → (0 < backoff interval failures) × (backoff interval failures ≤ max_backoff)
unfolding backoff
backoff_bounded interval failures h = ground arith

doubled_le : (d n : ℕ) → d ≤ doubled d n
unfolding doubled
doubled_le d zero = omega arith
doubled_le d (suc n) = omega (arith, doubled_le (d * 2) n)

shift_left-doubled : (d n : ℕ) → doubled d n < word → shift_left d n ≡ doubled d n
unfolding shift_left doubled
shift_left-doubled d zero h = refl
shift_left-doubled d (suc n) h =
    let fits : (d * 2) % word ≡ d * 2 = omega (arith, doubled_le (d * 2) n) in
    ap (λ x. shift_left x n) fits ∙ shift_left-doubled (d * 2) n h

doubled_mono : (d n m : ℕ) → n ≤ m → doubled d n ≤ doubled d m
unfolding doubled
doubled_mono d zero m h = doubled_le d m
doubled_mono d (suc n) zero h = omega arith
doubled_mono d (suc n) (suc m) h = doubled_mono (d * 2) n m (omega arith)

doubled_bound : (d n : ℕ) → n ≤ 8 → doubled d n ≤ d * 256
unfolding doubled
doubled_bound d n h = omega (arith, doubled_mono d n 8 h)

-- For an interval of a positive number of nanoseconds below 2^55 the wait after a failure is that
-- interval, doubled for each of the last failures up to eight, and 30 minutes at most.
pub backoff_exact :
    (interval failures : ℕ)
    → 0 < interval
    → interval < 36028797018963968
    → 0 < failures
    → backoff interval failures ≡ min (doubled interval (min failures 8)) max_backoff
unfolding backoff
backoff_exact interval failures p b h =
    let k = if ltb 8 failures then 8 else failures in
    let same : min failures 8 ≡ k = ground arith in
    let low = doubled_le interval k in
    let high = doubled_bound interval k (ground arith) in
    let shifted : shift_left interval k ≡ doubled interval k =
      shift_left-doubled interval k (omega arith) in
    ground (arith, same, shifted, low, high)
