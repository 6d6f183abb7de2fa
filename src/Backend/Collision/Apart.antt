-- ===== src/Backend/Collision/Apart.antt =====
-- Which releases rejectRecordedCollision of backend/backend.go lets deploy beside those recorded.
use swarmcli_cd.Base.{
  ℕ, ◌≡◌, ◌≢◌, ◌↔◌, ◌⊎◌, inl, inr, refl, sym, ap, subst, true, none, List, [], ◌∷◌, ◌++◌, arith,
  Str, seq_iff, In, In-keep, Outcome, Outcome-cases, ok, err,
}
use swarmcli_cd.Owner.{releases_collide, underscore}
use swarmcli_cd.Owner.Scope.{Overlap, collide→Overlap}
use swarmcli_cd.Backend.Collision.Listed.{has_any_prefix, by_prefix, listed_of_Overlap}
use swarmcli_cd.Backend.{Named, Backend, label_at}
use swarmcli_cd.Backend.Records.{Platform, lower_case, is_release_record}
use swarmcli_cd.Backend.Collision.{
  Scan, scan, scan_step, start, collision_verdict, reject_recorded_collision, record_prefixes,
  records_of, CollisionError,
}

-- What one step of the loop keeps, and what the steps after it keep, taken together.
joined :
    {c nc ncc o o1 o2 w sw swc e e1 e2 x nx nxc : Type 0}
    → (¬ c) × (o1 ↔ (o ⊎ w)) × (e1 ↔ (e × (¬ x)))
    → nc × (o2 ↔ (o1 ⊎ sw)) × (e2 ↔ (e1 × nx))
    → ncc ↔ ((¬ c) × nc)
    → swc ↔ (w ⊎ sw)
    → nxc ↔ ((¬ x) × nx)
    → ncc × (o2 ↔ (o ⊎ swc)) × (e2 ↔ (e × nxc))
joined now later hc hw hx = ground arith

carried :
    {a s nc nc' so so' ne ne' : Type 0}
    → a ↔ (nc × (s ⊎ (so ⊎ ne)))
    → nc ↔ nc'
    → so ↔ so'
    → ne ↔ ne'
    → a ↔ (nc' × (s ⊎ (so' ⊎ ne')))
carried h i j k = ground arith

module _ (pf : Platform) (b : Backend) (release : Str) where
  abbrev pub IsRecord : Named → Type 0
  IsRecord c = is_release_record pf c.labels ≡ true

  abbrev pub Other : Named → Str
  Other c = label_at pf.label_release c.labels

  abbrev pub Own : Named → Type 0
  Own c = IsRecord c × (Other c ≡ release)

  abbrev pub Clash : Named → Type 0
  Clash c = IsRecord c × (Other c ≢ release) × (lower_case pf (Other c) ≡ lower_case pf release)

  abbrev pub Extends : Named → Type 0
  Extends c = IsRecord c × (releases_collide pf.lower (Other c) release ≡ true)

  abbrev Titled : Named → Type 0
  Titled c = IsRecord c → Other c ≢ []

  step_err :
      (st : Scan) (c : Named) (e : CollisionError) → scan_step pf b release st c ≡ err e → Clash c
  unfolding scan_step
  step_err st c e h =
      ground (
        arith,
        seq_iff (Other c) release,
        seq_iff (lower_case pf (Other c)) (lower_case pf release),
      )

  step_ok :
      (st s : Scan) (c : Named)
      → Titled c
      → scan_step pf b release st c ≡ ok s
      → (¬ (Clash c))
        × ((s.own ≡ true) ↔ ((st.own ≡ true) ⊎ Own c))
        × ((s.extends ≡ []) ↔ ((st.extends ≡ []) × (¬ (Extends c))))
  unfolding scan_step releases_collide
  step_ok st s c t h =
      ground (
        arith,
        seq_iff (Other c) release,
        seq_iff (lower_case pf (Other c)) (lower_case pf release),
      )

  abbrev pub Somewhere : (Named → Type 0) → List Named → Type 0
  Somewhere P xs = (c : Named) × In c xs × P c

  abbrev pub Nowhere : (Named → Type 0) → List Named → Type 0
  Nowhere P xs = (c : Named) → In c xs → ¬ (P c)

  -- What holds at a list's first item or somewhere in its rest.
  Somewhere-cons :
      (P : Named → Type 0) (c : Named) (cs : List Named)
      → Somewhere P (c ∷ cs) ↔ (P c ⊎ Somewhere P cs)
  Somewhere-cons P c cs = (there, back)
    where
      there : Somewhere P (c ∷ cs) → P c ⊎ Somewhere P cs
      there (x, (inl e), h) = inl (subst P e h)
      there (x, (inr m), h) = inr (x, m, h)

      back : P c ⊎ Somewhere P cs → Somewhere P (c ∷ cs)
      back (inl h) = (c, inl refl, h)
      back (inr (x, m, h)) = (x, inr m, h)

  Nowhere-cons :
      (P : Named → Type 0) (c : Named) (cs : List Named)
      → Nowhere P (c ∷ cs) ↔ ((¬ (P c)) × Nowhere P cs)
  Nowhere-cons P c cs = (λ h. (h c (inl refl), λ x m. h x (inr m)), back)
    where
      back : (¬ (P c)) × Nowhere P cs → Nowhere P (c ∷ cs)
      back (h, k) x (inl e) p = h (subst P e p)
      back (h, k) x (inr m) p = k x m p

  Nowhere-of : (P : Named → Type 0) (xs : List Named) → (¬ (Somewhere P xs)) ↔ Nowhere P xs
  Nowhere-of P xs = (λ h c m p. h (c, m, p), λ h (c, m, p). h c m p)

  scan_err :
      (st : Scan) (xs : List Named) (e : CollisionError)
      → scan pf b release st xs ≡ err e
      → Somewhere Clash xs
  unfolding scan
  scan_err st [] e h = cc
  scan_err st (c ∷ cs) e h = elim (Outcome-cases (scan_step pf b release st c)) [
    | inl (s, k) ↦ (Somewhere-cons Clash c cs).1 (inr (scan_err s cs e (ground arith)))
    | inr (f, k) ↦ (c, inl refl, step_err st c f k)
  ]

  scan_ok :
      (st s : Scan) (xs : List Named)
      → ((c : Named) → In c xs → Titled c)
      → scan pf b release st xs ≡ ok s
      → Nowhere Clash xs
        × ((s.own ≡ true) ↔ ((st.own ≡ true) ⊎ Somewhere Own xs))
        × ((s.extends ≡ []) ↔ ((st.extends ≡ []) × Nowhere Extends xs))
  unfolding scan
  scan_ok st s [] t h = (
    λ c m. absurd m,
    (λ e. inl (ground arith), λ e. elim e [ inl k ↦ ground arith | inr w ↦ absurd w.1 ]),
    (λ e. (ground arith, λ c m. absurd m), λ e. ground arith),
  )
  scan_ok st s (c ∷ cs) t h = elim (Outcome-cases (scan_step pf b release st c)) [
    | inl (s', k) ↦
        let now = step_ok st s' c (t c (inl refl)) k in
        let later = scan_ok s' s cs (λ x m. t x (inr m)) (ground arith) in
        joined now later (Nowhere-cons Clash c cs) (Somewhere-cons Own c cs)
          (Nowhere-cons Extends c cs)
    | inr (f, k) ↦ ground arith
  ]

  -- How the engine writes a record: under its release's name, which is not empty.
  abbrev pub Written : Named → Type 0
  Written c = IsRecord c → (Other c ≢ []) × ((r : Str) × (c.name ≡ records_of (Other c) ++ r))

  abbrev pub listing : List Named → List Named
  listing store = by_prefix pf store (record_prefixes release)

  verdict_ok :
      {nc sw ne : Type 0} (s : Scan)
      → nc
        × ((s.own ≡ true) ↔ (((start pf b release).own ≡ true) ⊎ sw))
        × ((s.extends ≡ []) ↔ (((start pf b release).extends ≡ []) × ne))
      → ((collision_verdict pf b release (ok s)).1 ≡ none)
        ↔ (nc × ((b.self_release ≡ true) ⊎ (sw ⊎ ne)))
  unfolding collision_verdict
  verdict_ok s h = ground arith

  verdict_iff :
      (xs : List Named)
      → ((c : Named) → In c xs → Titled c)
      → ((collision_verdict pf b release (scan pf b release (start pf b release) xs)).1 ≡ none)
        ↔ (Nowhere Clash xs × ((b.self_release ≡ true) ⊎ (Somewhere Own xs ⊎ Nowhere Extends xs)))
  unfolding collision_verdict
  verdict_iff xs t = elim (Outcome-cases (scan pf b release (start pf b release) xs)) [
    | inl (s, k) ↦
        subst
          (λ o. ((collision_verdict pf b release o).1 ≡ none) ↔ (
            Nowhere Clash xs × ((b.self_release ≡ true) ⊎ (Somewhere Own xs ⊎ Nowhere Extends xs))))
          (sym k) (verdict_ok s (scan_ok (start pf b release) s xs t k))
    | inr (e, k) ↦
        (λ h. ground arith, λ h. absurd (found (scan_err (start pf b release) xs e k) h.0))
  ]
    where
      found : Somewhere Clash xs → ¬ (Nowhere Clash xs)
      found (c, m, h) k = k c m h

  module _ (store : List Named) (written : (c : Named) → In c store → Written c)
      (fixed : pf.lower underscore ≡ underscore)
      (alone : (c : ℕ) → pf.lower c ≡ underscore → c ≡ underscore) where
    -- The listing holds what the loop acts on.
    covered :
        (P : Named → Type 0)
        → ((c : Named)
            → P c
            → IsRecord c × Overlap pf.lower (lower_case pf (Other c)) (lower_case pf release))
        → (c : Named) → In c store
        → P c
        → In c (listing store)
    unfolding by_prefix
    covered P near c m p =
        let (i, o) = near c p in
        let (_, (r, e)) = written c m i in
        (In-keep (λ c. has_any_prefix pf (record_prefixes release) c.name) c store).1
          (m, listed_of_Overlap pf release c.name (Other c) r e fixed alone o)

    listed_in : (c : Named) → In c (listing store) → In c store
    unfolding by_prefix
    listed_in c m =
        ((In-keep (λ c. has_any_prefix pf (record_prefixes release) c.name) c store).0 m).0

    Somewhere-covered :
        (P : Named → Type 0)
        → ((c : Named)
            → P c
            → IsRecord c × Overlap pf.lower (lower_case pf (Other c)) (lower_case pf release))
        → Somewhere P (listing store) ↔ Somewhere P store
    Somewhere-covered P near =
        (λ (c, m, p). (c, listed_in c m, p), λ (c, m, p). (c, covered P near c m p, p))

    Nowhere-covered :
        (P : Named → Type 0)
        → ((c : Named)
            → P c
            → IsRecord c × Overlap pf.lower (lower_case pf (Other c)) (lower_case pf release))
        → Nowhere P (listing store) ↔ Nowhere P store
    Nowhere-covered P near =
        ground (arith, Nowhere-of P (listing store), Nowhere-of P store, Somewhere-covered P near)

    -- Let the daemon list the configs whose names have one of the prefixes, in any case, let each
    -- record be named after its release, and let the underscore be the lower case of itself alone.
    -- Then a release is let through exactly if no release recorded on the swarm has its name in another
    -- case, and it is the controller's own, or recorded already, or collides with none recorded.
    pub reject_recorded_collision_iff :
        (config_list : List Str → Outcome Str (List Named))
        → config_list (record_prefixes release) ≡ ok (listing store)
        → ((reject_recorded_collision pf b release config_list).1 ≡ none) ↔ (
            Nowhere Clash store
            × ((b.self_release ≡ true) ⊎ (Somewhere Own store ⊎ Nowhere Extends store)))
    unfolding reject_recorded_collision
    reject_recorded_collision_iff config_list e =
        rw (reject_recorded_collision, e)
          (carried (verdict_iff (listing store) λ c m i. (written c (listed_in c m) i).0)
            (Nowhere-covered Clash λ c (i, _, q). (i, inl q))
            (Somewhere-covered Own λ c (i, q). (i, inl (ap (lower_case pf) q)))
            (Nowhere-covered Extends
              λ c (i, q). (i, (collide→Overlap pf.lower (Other c) release q).1)))
