-- ===== src/Reconcile/Hold.antt =====
-- reconcile/reconcile.go: what an application's entry remembers of the reconciles before, and what
-- makes it forget: noteFailure, setUnstable, checkReproducible and Replace, for an entry of the set.
-- An entry that has left the set is changed by none of them.
pub mod Forgotten
use swarmcli_cd.Base.{
  ℕ, zero, suc, Bool, true, false, ◌||◌, not, Option, none, some, List, [], ◌∷◌, Str, seq, is_empty,
  if◌then◌else◌,
}

-- The entry's `unstable`, `unstableReleases` and `failures`, and whether `wake` is full.
pub record Memory : Type 0 where
  pub unstable : Str
  pub unstable_releases : List Str
  pub failures : ℕ
  pub is_woken : Bool

-- A reconcile ended, with whether it failed; the confirming plan found releases at a revision, or none
-- at the empty one; the spec was replaced.
pub data Happening : Type 0 where
  ended : Bool → Happening
  found : Str → List Str → Happening
  replaced : Happening

abbrev pub fresh : Memory
fresh = record { unstable = []; unstable_releases = []; failures = 0; is_woken = false }

unfoldable pub note_failure : Bool → Memory → Memory
note_failure failed m = record m { failures = if failed then suc m.failures else 0 }

unfoldable pub set_unstable : Str → List Str → Memory → Memory
set_unstable revision releases m = record m { unstable = revision; unstable_releases = releases }

-- `Replace`, at what it clears, with the poke at its end.
unfoldable pub replace : Memory → Memory
replace m = record m { unstable = []; unstable_releases = []; failures = 0; is_woken = true }

abbrev pub happen : Happening → Memory → Memory
happen (ended failed) m = note_failure failed m
happen (found revision releases) m = set_unstable revision releases m
happen replaced m = replace m

-- The memory after all that happened, the newest first.
unfoldable pub remember : List Happening → Memory
remember [] = fresh
remember (h ∷ hs) = happen h (remember hs)

-- `checkReproducible`: the releases that the refusal names.
unfoldable pub check_reproducible : Str → Memory → Option (List Str)
check_reproducible revision m =
    if is_empty m.unstable || not (seq m.unstable revision) then none else some m.unstable_releases
