-- ===== src/Reconcile/Backoff.antt =====
-- reconcile/reconcile.go: how long an application waits until it is reconciled again.
pub mod Bounds
use swarmcli_cd.Base.{
  ℕ, zero, suc, ◌+◌, ◌*◌, ◌-◌, ◌%◌, Bool, true, false, ◌||◌, ltb, leb, ◌==◌, if◌then◌else◌,
}

-- 30 minutes, in the nanoseconds of a `time.Duration`.
abbrev pub max_backoff : ℕ
max_backoff = 1800000000000

abbrev pub max_backoff_shift : ℕ
max_backoff_shift = 8

-- The bits of an `int64`, and whether they stand for a number that is not above 0.
abbrev pub word : ℕ
word = 18446744073709551616

abbrev pub sign_bit : ℕ
sign_bit = 9223372036854775808

abbrev pub is_not_positive : ℕ → Bool
is_not_positive d = d == 0 || leb sign_bit d

-- `d << n`, a bit at a time.
unfoldable pub shift_left : ℕ → ℕ → ℕ
shift_left d zero = d
shift_left d (suc n) = shift_left ((d * 2) % word) n

-- `backoff`, at an interval given by its bits; a count of failures is not below 0.
unfoldable pub backoff : ℕ → ℕ → ℕ
backoff interval failures =
    if failures == 0
    then interval
    else (let shift = if ltb max_backoff_shift failures then max_backoff_shift else failures in
        let d = shift_left interval shift in
        if is_not_positive d || ltb max_backoff d then max_backoff else d)
