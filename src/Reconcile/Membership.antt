-- ===== src/Reconcile/Membership.antt =====
-- reconcile/entry.go and reconcile/reconcile.go: entries, their leases, and how an application leaves
-- the set while its work may still run. Goroutines interleave, so the whole is a step relation: a
-- step is what happens under the reconciler's lock, or one operation on a lease or a context.
pub mod Drained
use swarmcli_cd.Base.{
  ℕ, suc, ◌≡◌, ◌<◌, Bool, true, false, not, Option, none, some, List, [], ◌∷◌, ◌++◌, Str, seq, keep,
  In, ◌==◌, if◌then◌else◌,
}

-- An entry's lease, as `acquire` takes it: a taken lease is not yet work, since the entry's context
-- is looked at once more.
pub data Lease : Type 0 where
  free taken working : Lease

-- Entries are numbered as they are made, which is the identity that `currentLocked` compares.
pub record State : Type 0 where
  pub next : ℕ
  pub name : ℕ → Str
  -- `Reconciler.apps`
  pub apps : Str → Option ℕ
  -- what `Remove` has taken out of the set and still waits for
  pub leaving : List ℕ
  pub retiring : List ℕ
  pub lease : ℕ → Lease
  pub cancelled : ℕ → Bool

abbrev pub put {ℓ} : {A : Type ℓ} → (ℕ → A) → ℕ → A → ℕ → A
put f k v x = if x == k then v else f x

abbrev pub put_name {ℓ} : {A : Type ℓ} → (Str → A) → Str → A → Str → A
put_name f k v x = if seq x k then v else f x

abbrev pub drop : ℕ → List ℕ → List ℕ
drop e = keep (λ x. not (x == e))

abbrev pub start : State
start = record {
  next = 0;
  name = λ _. [];
  apps = λ _. none;
  leaving = [];
  retiring = [];
  lease = λ _. free;
  cancelled = λ _. false;
}

-- `Add`, and the error when the name is there.
unfoldable pub add : Str → State → Option State
add n s = elim (s.apps n) [
  | some e ↦ none
  | none ↦ some (record s {
    next = suc s.next;
    name = put s.name s.next n;
    apps = put_name s.apps n (some s.next);
    lease = put s.lease s.next free;
    cancelled = put s.cancelled s.next false;
  })
]

-- `Remove` up to where it gives the lock back.
unfoldable pub take_out : Str → State → Option State
take_out n s = elim (s.apps n) [
  | none ↦ none
  | some e ↦ some (record s { apps = put_name s.apps n none; leaving = e ∷ s.leaving })
]

unfoldable pub cancel : ℕ → State → State
cancel e s = record s { cancelled = put s.cancelled e true }

-- The end of `Remove`: `drain` got the lease, or gave up on it.
unfoldable pub drained : ℕ → State → State
drained e s = record s { leaving = drop e s.leaving }

unfoldable pub gave_up : ℕ → State → State
gave_up e s = record s { leaving = drop e s.leaving; retiring = s.retiring ++ (e ∷ []) }

unfoldable pub set_lease : ℕ → Lease → State → State
set_lease e l s = record s { lease = put s.lease e l }

abbrev pub is_free : Lease → Bool
is_free free = true
is_free _ = false

-- `busy`
abbrev pub busy : State → ℕ → Bool
busy s e = not (is_free (s.lease e))

-- `Draining`: the names, and the entries that it keeps.
abbrev pub names_of : State → List ℕ → List Str
names_of s [] = []
names_of s (e ∷ es) = s.name e ∷ names_of s es

unfoldable pub draining : State → List Str × State
draining s = let kept = keep (busy s) s.retiring in (names_of s kept, record s { retiring = kept })

-- `acquire` is `grab`, then `begin` or `decline`; what it returns to release the lease is `finish`.
-- Whoever once looked an entry up may try to take its lease, so `grab` asks only that it was made.
-- `stop` is the controller's own shutdown.
pub data Step : State → State → Type 0 where
  added : (n : Str) (s t : State) → add n s ≡ some t → Step s t
  left : (n : Str) (s t : State) → take_out n s ≡ some t → Step s t
  cancelling : (e : ℕ) (s : State) → In e s.leaving → Step s (cancel e s)
  draining_ok :
      (e : ℕ) (s : State)
      → In e s.leaving
      → s.cancelled e ≡ true
      → s.lease e ≡ free
      → Step s (drained e s)
  draining_late : (e : ℕ) (s : State) → In e s.leaving → s.cancelled e ≡ true → Step s (gave_up e s)
  grab : (e : ℕ) (s : State) → e < s.next → s.lease e ≡ free → Step s (set_lease e taken s)
  begin :
      (e : ℕ) (s : State)
      → s.lease e ≡ taken
      → s.cancelled e ≡ false
      → Step s (set_lease e working s)
  decline :
      (e : ℕ) (s : State) → s.lease e ≡ taken → s.cancelled e ≡ true → Step s (set_lease e free s)
  finish : (e : ℕ) (s : State) → s.lease e ≡ working → Step s (set_lease e free s)
  stop : (e : ℕ) (s : State) → Step s (cancel e s)
  asked : (s : State) → Step s (draining s).1

pub data Reachable : State → Type 0 where
  at_start : Reachable start
  after : (s t : State) → Reachable s → Step s t → Reachable t
