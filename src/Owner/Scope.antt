-- ===== src/Owner/Scope.antt =====
-- Two release names and the names that their stacks scope: application/owner.go, ReleasesCollide.
use swarmcli_cd.Base.{
  ℕ, ◌≡◌, ◌≢◌, ◌↔◌, ◌⊎◌, inl, inr, refl, sym, ap, ◌∙◌, true, [], ◌∷◌, ◌++◌, append_assoc, arith,
  Str, seq_iff, has_prefix_iff,
}
use mathlib.Core.List.{map-append}
use swarmcli_cd.Owner.{underscore, to_lower, releases_collide, scoped}

-- Two texts that agree once each is followed by the same mark and more: they are equal, or one is
-- the other followed by the mark.
marked_prefix :
    (u : ℕ) (p q s t : Str)
    → p ++ (u ∷ s) ≡ q ++ (u ∷ t)
    → (p ≡ q) ⊎ (((r : Str) × (q ≡ p ++ (u ∷ r))) ⊎ ((r : Str) × (p ≡ q ++ (u ∷ r))))
marked_prefix u [] [] s t h = inl refl
marked_prefix u [] (y ∷ q) s t h = inr (inl (q, ground arith))
marked_prefix u (x ∷ p) [] s t h = inr (inr (p, ground arith))
marked_prefix u (x ∷ p) (y ∷ q) s t h = elim (marked_prefix u p q s t (ground arith)) [
  | inl e ↦ inl (ground arith)
  | inr (inl (r, e)) ↦ inr (inl (r, ground arith))
  | inr (inr (r, e)) ↦ inr (inr (r, ground arith))
]

module _ (lower : ℕ → ℕ) where
  -- the three tests of the source, as an equation or a common mark
  abbrev pub Overlap : Str → Str → Type 0
  Overlap p q =
      (p ≡ q)
      ⊎ (((r : Str) × (q ≡ p ++ (underscore ∷ r))) ⊎ ((r : Str) × (p ≡ q ++ (underscore ∷ r))))

  pub collide→Overlap :
      (a b : Str)
      → releases_collide lower a b ≡ true
      → (a ≢ b) × Overlap (to_lower lower a) (to_lower lower b)
  unfolding releases_collide
  collide→Overlap a b h = ground (
    arith,
    seq_iff a b,
    seq_iff (to_lower lower a) (to_lower lower b),
    has_prefix_iff (to_lower lower a) (to_lower lower b) underscore,
    has_prefix_iff (to_lower lower b) (to_lower lower a) underscore,
  )

  Overlap→collide :
      (a b : Str)
      → a ≢ b
      → Overlap (to_lower lower a) (to_lower lower b)
      → releases_collide lower a b ≡ true
  unfolding releases_collide
  Overlap→collide a b h o = ground (
    arith,
    seq_iff a b,
    seq_iff (to_lower lower a) (to_lower lower b),
    has_prefix_iff (to_lower lower a) (to_lower lower b) underscore,
    has_prefix_iff (to_lower lower b) (to_lower lower a) underscore,
  )

  -- What a name scopes, in lower case.
  scoped_lower :
      (a x : Str)
      → lower underscore ≡ underscore
      → to_lower lower (scoped a x) ≡ to_lower lower a ++ (underscore ∷ to_lower lower x)
  scoped_lower a x h =
      map-append lower a (underscore ∷ x) ∙ ap (λ u. to_lower lower a ++ (u ∷ to_lower lower x)) h

  -- What stands after the mark in a lower-cased name comes from the end of the name.
  tail_of_lower :
      (u : ℕ) (p r q : Str) → to_lower lower q ≡ p ++ (u ∷ r) → (t : Str) × (to_lower lower t ≡ r)
  tail_of_lower u [] r [] h = ground arith
  tail_of_lower u [] r (c ∷ q) h = (q, ground arith)
  tail_of_lower u (x ∷ p) r [] h = ground arith
  tail_of_lower u (x ∷ p) r (c ∷ q) h = tail_of_lower u p r q (ground arith)

  -- Of a name and the same name with a mark and more, the shorter one scopes what the longer does.
  shared_scope :
      (a b r : Str)
      → lower underscore ≡ underscore
      → to_lower lower b ≡ to_lower lower a ++ (underscore ∷ r)
      → (x : Str) × (to_lower lower (scoped a x) ≡ to_lower lower (scoped b []))
  shared_scope a b r u h =
      let (t, e) = tail_of_lower underscore (to_lower lower a) r b h in
      (
        t ++ (underscore ∷ []),
        scoped_lower a (t ++ (underscore ∷ [])) u
            ∙ (ap (λ s. to_lower lower a ++ (underscore ∷ s))
                  (map-append lower t (underscore ∷ []) ∙ cc (e, u))
                ∙ (sym (append_assoc (to_lower lower a) (underscore ∷ r) (underscore ∷ []))
                    ∙ (ap (λ s. s ++ (underscore ∷ [])) (sym h) ∙ sym (scoped_lower b [] u)))),
      )

  shared_of_Overlap :
      (a b : Str)
      → lower underscore ≡ underscore
      → Overlap (to_lower lower a) (to_lower lower b)
      → (x : Str) × (y : Str) × (to_lower lower (scoped a x) ≡ to_lower lower (scoped b y))
  shared_of_Overlap a b u (inl e) = (
    [],
    [],
    scoped_lower a [] u ∙ (ap (λ s. s ++ (underscore ∷ [])) e ∙ sym (scoped_lower b [] u)),
  )
  shared_of_Overlap a b u (inr (inl (r, e))) = let (x, p) = shared_scope a b r u e in (x, [], p)
  shared_of_Overlap a b u (inr (inr (r, e))) = let (x, p) = shared_scope b a r u e in ([], x, sym p)

  -- Two different names collide exactly when some name scoped by the one and some name scoped by
  -- the other are the same in lower case, given that the underscore has no other lower case.
  pub releases_collide_iff :
      (a b : Str)
      → lower underscore ≡ underscore
      → (releases_collide lower a b ≡ true) ↔ (
          (a ≢ b)
          × ((x : Str) × (y : Str) × (to_lower lower (scoped a x) ≡ to_lower lower (scoped b y))))
  releases_collide_iff a b u = (
    λ h. ((collide→Overlap a b h).0, shared_of_Overlap a b u (collide→Overlap a b h).1),
    λ h. Overlap→collide a b h.0 (
        marked_prefix underscore (to_lower lower a) (to_lower lower b) (to_lower lower h.1.0)
          (to_lower lower h.1.1) (sym (scoped_lower a h.1.0 u) ∙ (h.1.2 ∙ scoped_lower b h.1.1 u))),
  )
