-- ===== src/Reconcile/Membership/Drained.antt =====
-- What an empty answer of Draining, in reconcile/reconcile.go, says of the work that still runs.
use swarmcli_cd.Base.{
  ℕ, suc, ◌≡◌, ◌≢◌, ◌<◌, ◌⊎◌, ◌↔◌, inl, inr, refl, subst, true, false, not, Option, none, some,
  List, [], ◌∷◌, ◌++◌, arith, Str, seq, seq_iff, seq_refl, keep, In, In-keep, ◌==◌, ==_iff,
  Option-cases, Bool-cases,
}
use swarmcli_cd.Reconcile.Membership.{
  free, taken, working, State, put, put_name, start, add, take_out, cancel, drained, gave_up,
  set_lease, busy, names_of, draining, Step, Reachable,
}

abbrev pub Member : State → ℕ → Type 0
Member s e = (n : Str) × (s.apps n ≡ some e)

-- For one entry: work is of a member, or of one that `Remove` waits for or has noted; a context that
-- is not done is of a member, or of one that `Remove` has not yet cancelled; a lease in use is of an
-- entry that was made.
abbrev pub IsKnown : State → ℕ → Type 0
IsKnown s e =
    (s.lease e ≡ working → (Member s e ⊎ (In e s.leaving ⊎ In e s.retiring)))
    × (e < s.next → s.cancelled e ≡ false → (Member s e ⊎ In e s.leaving))
    × (s.lease e ≢ free → e < s.next)

In-snoc : (e x : ℕ) (es : List ℕ) → In e (es ++ (x ∷ [])) ↔ (In e es ⊎ (e ≡ x))
In-snoc e x [] = ground arith
In-snoc e x (y ∷ ys) = ground (arith, In-snoc e x ys)

start-IsKnown : (e : ℕ) → IsKnown start e
start-IsKnown e = ground arith

module _ (s : State) (h : (e : ℕ) → IsKnown s e) where
  Member-put :
      (n : Str) (v : Option ℕ) (e : ℕ)
      → s.apps n ≡ none
      → Member s e
      → (m : Str) × (put_name s.apps n v m ≡ some e)
  Member-put n v e g (m, k) = elim (Bool-cases (seq m n)) [
    | inr d ↦ (m, ground arith)
    | inl d ↦ let k2 = subst (λ y. s.apps y ≡ some e) ((seq_iff m n).0 d) k in ground arith
  ]

  abbrev added_state : Str → State
  added_state n = record s {
    next = suc s.next;
    name = put s.name s.next n;
    apps = put_name s.apps n (some s.next);
    lease = put s.lease s.next free;
    cancelled = put s.cancelled s.next false;
  }

  added_state-IsKnown : (n : Str) → s.apps n ≡ none → (e : ℕ) → IsKnown (added_state n) e
  added_state-IsKnown n g e = elim (Bool-cases (e == s.next)) [
    | inl d ↦
        let same : put_name s.apps n (some s.next) n ≡ some e = ground (arith, seq_refl n) in
        (ground arith, λ _ _. inl (n, same), ground arith)
    | inr d ↦ ground (arith, h e, Member-put n (some s.next) e g)
  ]

  add-IsKnown : (n : Str) (t : State) → add n s ≡ some t → (e : ℕ) → IsKnown t e
  unfolding add
  add-IsKnown n t k e = elim (Option-cases (s.apps n)) [
    | inr (x, g) ↦ ground arith
    | inl g ↦
        let same : added_state n ≡ t = ground arith in
        subst (λ y. IsKnown y e) same (added_state-IsKnown n g e)
  ]

  abbrev out_state : Str → ℕ → State
  out_state n x = record s { apps = put_name s.apps n none; leaving = x ∷ s.leaving }

  Member-out :
      (n : Str) (x : ℕ)
      → s.apps n ≡ some x
      → (e : ℕ) → Member s e
      → Member (out_state n x) e ⊎ (e ≡ x)
  Member-out n x g e (m, k) = elim (Bool-cases (seq m n)) [
    | inr d ↦ inl (m, ground arith)
    | inl d ↦ let k2 = subst (λ y. s.apps y ≡ some e) ((seq_iff m n).0 d) k in inr (ground arith)
  ]

  take_out-IsKnown : (n : Str) (t : State) → take_out n s ≡ some t → (e : ℕ) → IsKnown t e
  unfolding take_out
  take_out-IsKnown n t k e = elim (Option-cases (s.apps n)) [
    | inl g ↦ ground arith
    | inr (x, g) ↦
        let same : out_state n x ≡ t = ground arith in
        let known : IsKnown (out_state n x) e = ground (arith, h e, Member-out n x g e) in
        subst (λ y. IsKnown y e) same known
  ]

  cancel-IsKnown : (x e : ℕ) → IsKnown (cancel x s) e
  unfolding cancel
  cancel-IsKnown x e = ground (arith, h e)

  drained-IsKnown :
      (x : ℕ) → s.cancelled x ≡ true → s.lease x ≡ free → (e : ℕ) → IsKnown (drained x s) e
  unfolding drained
  drained-IsKnown x c l e = elim (Bool-cases (e == x)) [
    | inr d ↦ ground (arith, h e, In-keep (λ y. not (y == x)) e s.leaving)
    | inl d ↦
        let same : x ≡ e = ground arith in
        let c2 = subst (λ y. s.cancelled y ≡ true) same c in
        let l2 = subst (λ y. s.lease y ≡ free) same l in ground (arith, h e)
  ]

  gave_up-IsKnown : (x : ℕ) → s.cancelled x ≡ true → (e : ℕ) → IsKnown (gave_up x s) e
  unfolding gave_up
  gave_up-IsKnown x c e = elim (Bool-cases (e == x)) [
    | inr d ↦ ground (arith, h e, In-keep (λ y. not (y == x)) e s.leaving, In-snoc e x s.retiring)
    | inl d ↦
        let same : x ≡ e = ground arith in
        let c2 = subst (λ y. s.cancelled y ≡ true) same c in
        ground (arith, h e, In-snoc e x s.retiring)
  ]

  grab-IsKnown : (x : ℕ) → x < s.next → (e : ℕ) → IsKnown (set_lease x taken s) e
  unfolding set_lease
  grab-IsKnown x b e = ground (arith, h e, ==_iff e x)

  begin-IsKnown :
      (x : ℕ)
      → s.lease x ≡ taken
      → s.cancelled x ≡ false
      → (e : ℕ) → IsKnown (set_lease x working s) e
  unfolding set_lease
  begin-IsKnown x l c e = elim (Bool-cases (e == x)) [
    | inr d ↦ ground (arith, h e)
    | inl d ↦
        let same : x ≡ e = ground arith in
        let c2 = subst (λ y. s.cancelled y ≡ false) same c in
        let l2 = subst (λ y. s.lease y ≡ taken) same l in ground (arith, h e)
  ]

  release-IsKnown : (x e : ℕ) → IsKnown (set_lease x free s) e
  unfolding set_lease
  release-IsKnown x e = ground (arith, h e)

  draining-IsKnown : (e : ℕ) → IsKnown (draining s).1 e
  unfolding draining
  draining-IsKnown e = ground (arith, h e, In-keep (busy s) e s.retiring)

step-IsKnown : {s t : State} → ((e : ℕ) → IsKnown s e) → Step s t → (e : ℕ) → IsKnown t e
step-IsKnown h (Step.added n s t k) = add-IsKnown s h n t k
step-IsKnown h (Step.left n s t k) = take_out-IsKnown s h n t k
step-IsKnown h (Step.cancelling x s i) = cancel-IsKnown s h x
step-IsKnown h (Step.draining_ok x s i c l) = drained-IsKnown s h x c l
step-IsKnown h (Step.draining_late x s i c) = gave_up-IsKnown s h x c
step-IsKnown h (Step.grab x s b l) = grab-IsKnown s h x b
step-IsKnown h (Step.begin x s l c) = begin-IsKnown s h x l c
step-IsKnown h (Step.decline x s l c) = release-IsKnown s h x
step-IsKnown h (Step.finish x s l) = release-IsKnown s h x
step-IsKnown h (Step.stop x s) = cancel-IsKnown s h x
step-IsKnown h (Step.asked s) = draining-IsKnown s h

reachable-IsKnown : {s : State} → Reachable s → (e : ℕ) → IsKnown s e
reachable-IsKnown Reachable.at_start = start-IsKnown
reachable-IsKnown (Reachable.after s t r k) = step-IsKnown (reachable-IsKnown r) k

-- In every state that the steps reach, once no removal is under way and Draining has no name to
-- report, whatever work still runs is that of an application of the set.
pub quiet_when_drained :
    (s : State)
    → Reachable s
    → s.leaving ≡ []
    → (draining s).0 ≡ []
    → (e : ℕ) → s.lease e ≡ working
    → Member s e
unfolding draining
quiet_when_drained s r l d e w = ground (
  arith,
  reachable-IsKnown r e,
  In-keep (busy s) e s.retiring,
  names_of-nil (keep (busy s) s.retiring),
)
  where
    names_of-nil : (es : List ℕ) → names_of s es ≡ [] → es ≡ []
    names_of-nil [] k = refl
    names_of-nil (x ∷ xs) k = ground arith
