-- ===== src/Backend/Collision/Listed.antt =====
-- What the filter of rejectRecordedCollision, of backend/backend.go, lists of the release records: all
-- those that the loop would act on.
use swarmcli_cd.Base.{
  ℕ, ◌≡◌, inl, inr, refl, sym, ap, ◌∙◌, Bool, true, false, List, [], ◌∷◌, ◌++◌, append_assoc, arith,
  Str, has_prefix, starts_iff, In, In-map, keep, if◌then◌else◌,
}
use mathlib.Core.List.{map-append}
use swarmcli_cd.Owner.{underscore}
use swarmcli_cd.Owner.Scope.{Overlap}
use swarmcli_cd.Backend.{Named, release_record_prefix}
use swarmcli_cd.Backend.Records.{Platform, lower_case}
use swarmcli_cd.Backend.Collision.{record_prefixes, records_of, heads, dot}

module _ (pf : Platform) where
  -- The daemon's filter by name prefixes, which compares without regard to case.
  unfoldable pub has_any_prefix : List Str → Str → Bool
  has_any_prefix [] name = false
  has_any_prefix (p ∷ ps) name =
      if has_prefix (lower_case pf name) (lower_case pf p) then true else has_any_prefix ps name

  unfoldable pub by_prefix : List Named → List Str → List Named
  by_prefix store ps = keep (λ c. has_any_prefix ps c.name) store

  has_any_prefix_of :
      (p name : Str) (ps : List Str)
      → In p ps
      → ((r : Str) × (lower_case pf name ≡ lower_case pf p ++ r))
      → has_any_prefix ps name ≡ true
  unfolding has_any_prefix
  has_any_prefix_of p name [] m h = absurd m
  has_any_prefix_of p name (q ∷ ps) (inl e) h =
      rw (sym e, (starts_iff (lower_case pf name) (lower_case pf p)).1 h)
  has_any_prefix_of p name (q ∷ ps) (inr m) h = ground (arith, has_any_prefix_of p name ps m h)

  -- Each mark in a lower-cased name ends a head of the name.
  head_of_lower :
      (p t release : Str)
      → ((c : ℕ) → pf.lower c ≡ underscore → c ≡ underscore)
      → lower_case pf release ≡ p ++ (underscore ∷ t)
      → (h : Str) × In h (heads release) × (lower_case pf h ≡ p)
  unfolding heads
  head_of_lower [] t [] u e = ground arith
  head_of_lower (x ∷ p) t [] u e = ground arith
  head_of_lower [] t (c ∷ cs) u e = ([], ground (arith, u c), refl)
  head_of_lower (x ∷ p) t (c ∷ cs) u e =
      let (h, m, q) = head_of_lower p t cs u (ground arith) in
      (c ∷ h, ground (arith, In-map (λ h. c ∷ h) h (heads cs) m), ground arith)

  records_of_lower :
      (x y : Str)
      → lower_case pf x ≡ lower_case pf y
      → lower_case pf (records_of x) ≡ lower_case pf (records_of y)
  records_of_lower x y e = rw (map-append pf.lower x dot, map-append pf.lower y dot, e)

  lower_longer :
      (p release other d r t : Str)
      → pf.lower underscore ≡ underscore
      → lower_case pf other ≡ lower_case pf release ++ (underscore ∷ t)
      → lower_case pf ((p ++ (other ++ d)) ++ r)
        ≡ lower_case pf (p ++ (release ++ (underscore ∷ [])))
          ++ (t ++ (lower_case pf d ++ lower_case pf r))
  lower_longer p release other d r t u q = simp (map-append, append_assoc, q, u)

  module _ (release name other r : Str) (e : name ≡ records_of other ++ r) where
    listed_as :
        (h : Str)
        → In (records_of h) (record_prefixes release)
        → lower_case pf other ≡ lower_case pf h
        → has_any_prefix (record_prefixes release) name ≡ true
    listed_as h m q = has_any_prefix_of (records_of h) name (record_prefixes release) m (
      lower_case pf r,
      ap (lower_case pf) e
          ∙ (map-append pf.lower (records_of other) r
              ∙ ap (λ s. s ++ lower_case pf r) (records_of_lower other h q)),
    )

    listed_longer :
        (t : Str)
        → pf.lower underscore ≡ underscore
        → lower_case pf other ≡ lower_case pf release ++ (underscore ∷ t)
        → has_any_prefix (record_prefixes release) name ≡ true
    listed_longer t u q =
        has_any_prefix_of (release_record_prefix ++ (release ++ (underscore ∷ []))) name
          (record_prefixes release) (inr (inl refl))
          (
            t ++ (lower_case pf dot ++ lower_case pf r),
            ap (lower_case pf) e ∙ lower_longer release_record_prefix release other dot r t u q,
          )

    -- A record of a release whose name overlaps, in lower case, passes the filter.
    pub listed_of_Overlap :
        pf.lower underscore ≡ underscore
        → ((c : ℕ) → pf.lower c ≡ underscore → c ≡ underscore)
        → Overlap pf.lower (lower_case pf other) (lower_case pf release)
        → has_any_prefix (record_prefixes release) name ≡ true
    listed_of_Overlap u v (inl q) = listed_as release (inl refl) q
    listed_of_Overlap u v (inr (inl (t, q))) =
        let (h, m, p) = head_of_lower (lower_case pf other) t release v q in
        listed_as h (inr (inr (In-map records_of h (heads release) m))) (sym p)
    listed_of_Overlap u v (inr (inr (t, q))) = listed_longer t u q
