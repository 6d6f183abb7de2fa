-- ===== src/Backend/Deploy/Ordered.antt =====
-- Writes in their order, and what the combinators of Backend/Deploy keep of it.
use swarmcli_cd.Base.{
  ℕ, ◌≤◌, ◌≡◌, inl, inr, refl, Bool, true, false, Option, none, some, List, [], ◌∷◌, arith, Str, In,
  All, Outcome, ok, err, if◌then◌else◌,
}
use swarmcli_cd.Backend.Deploy.{
  Event, network_create, secret_create, secret_update, config_create, config_update, service_create,
  service_update, hold_self, out_of_band, Trace, WriteError, Answers, Result, and_then, each,
  reading, answered, writing,
}

-- Networks, then secrets, then configs, then services.
abbrev pub rank : Event → ℕ
rank (network_create nw) = 0
rank (secret_create s) = 1
rank (secret_update s) = 1
rank (config_create s) = 2
rank (config_update s) = 2
rank (service_create n q) = 3
rank (service_update n u) = 3
rank (hold_self n) = 3
rank (out_of_band n) = 3

-- No event comes before one of a lower rank.
abbrev pub Ordered : Trace → Type 0
Ordered [] = Unit
Ordered (ev ∷ tr) = All (λ e. rank e ≤ rank ev) tr × Ordered tr

-- `Lawful` says what a write may be.
module _ (Lawful : Event → Type 0) where
  abbrev Reached : ℕ → Event → Type 0
  Reached k e = (rank e ≤ k) × Lawful e

  -- In order so far, and nothing of a rank above `k`.
  abbrev pub InOrder : ℕ → Trace → Type 0
  InOrder k tr = Ordered tr × All (Reached k) tr

  pub All-weaker :
      (P Q : Event → Type 0) → ((e : Event) → P e → Q e) → (tr : Trace) → All P tr → All Q tr
  All-weaker P Q f [] h = h
  All-weaker P Q f (e ∷ tr) h = (f e h.0, All-weaker P Q f tr h.1)

  pub InOrder-later : (k m : ℕ) (tr : Trace) → k ≤ m → InOrder k tr → InOrder m tr
  InOrder-later k m tr le (o, h) =
      (o, All-weaker (Reached k) (Reached m) (λ e (q, l). (omega arith, l)) tr h)

  pub InOrder-snoc :
      (ev : Event) (tr : Trace) → Lawful ev → InOrder (rank ev) tr → InOrder (rank ev) (ev ∷ tr)
  InOrder-snoc ev tr l (o, h) = (
    (All-weaker (Reached (rank ev)) (λ e. rank e ≤ rank ev) (λ e q. q.0) tr h, o),
    ((omega arith, l), h),
  )

  module _ (k : ℕ) where
    abbrev pub Keeps : (Trace → Result) → Type 0
    Keeps f = (tr : Trace) → InOrder k tr → InOrder k (f tr).1

    pub InOrder-and_then :
        (r : Result) (next : Trace → Result)
        → InOrder k r.1
        → Keeps next
        → InOrder k (and_then r next).1
    InOrder-and_then (none, tr) next h n = n tr h
    InOrder-and_then (some e, tr) next h n = h

    pub InOrder-each :
        {A : Type 0} (f : A → Trace → Result) (xs : List A)
        → ((x : A) → In x xs → Keeps (f x))
        → Keeps (each f xs)
    unfolding each
    InOrder-each f [] h tr o = o
    InOrder-each f (x ∷ xs) h tr o =
        InOrder-and_then (f x tr) (each f xs) (h x (inl refl) tr o)
          (InOrder-each f xs (λ y m. h y (inr m)))

    pub InOrder-reading :
        {A : Type 0} (o : Outcome Str A) (next : A → Trace → Result)
        → ((a : A) → o ≡ ok a → Keeps (next a))
        → Keeps (reading o next)
    InOrder-reading (ok a) next h tr o = h a refl tr o
    InOrder-reading (err e) next h tr o = o

  pub InOrder-answered :
      (k : ℕ) (tr : Trace) (o : Option WriteError) → InOrder k tr → InOrder k (answered tr o).1
  InOrder-answered k tr none h = h
  InOrder-answered k tr (some e) h = h

  pub InOrder-writing : (w : Answers) (ev : Event) → Lawful ev → Keeps (rank ev) (writing w ev)
  unfolding writing
  InOrder-writing w ev l tr o =
      InOrder-answered (rank ev) (ev ∷ tr) (w.write (ev ∷ tr)) (InOrder-snoc ev tr l o)

  pub InOrder-if :
      (k : ℕ) (c : Bool) (r s : Result)
      → (c ≡ true → InOrder k r.1)
      → (c ≡ false → InOrder k s.1)
      → InOrder k (if c then r else s).1
  InOrder-if k true r s h j = h refl
  InOrder-if k false r s h j = j refl
