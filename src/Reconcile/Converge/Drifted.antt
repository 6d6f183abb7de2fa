-- ===== src/Reconcile/Converge/Drifted.antt =====
-- Which releases converge, in reconcile/reconcile.go, takes up.
use swarmcli_cd.Base.{
  ◌≡◌, ◌⊎◌, refl, sym, subst, Bool, true, false, List, [], ◌∷◌, ◌++◌, arith, Str, elem, elem_iff,
  In, inl, inr, if◌then◌else◌, map,
}
use swarmcli_cd.Reconcile.Installs.{ReleasePlan}
use swarmcli_cd.Reconcile.Converge.{Drifts, drift_of, convergeable, drifted_names}

-- The releases of a plan that are wanted, in its order.
abbrev pub wanted_in : List Str → List ReleasePlan → List Str
wanted_in wanted [] = []
wanted_in wanted (rp ∷ rest) =
    let later = wanted_in wanted rest in if elem rp.name wanted then rp.name ∷ later else later

pub wanted_in-append :
    (wanted : List Str) (xs ys : List ReleasePlan)
    → wanted_in wanted (xs ++ ys) ≡ wanted_in wanted xs ++ wanted_in wanted ys
wanted_in-append wanted [] ys = refl
wanted_in-append wanted (x ∷ xs) ys = ground (arith, wanted_in-append wanted xs ys)

In_if :
    (c : Bool) (n m : Str) (xs : List Str)
    → In n (if c then m ∷ xs else xs)
    → ((c ≡ true) × (n ≡ m)) ⊎ In n xs
In_if true n m xs (inl q) = inl (refl, q)
In_if true n m xs (inr i) = inr i
In_if false n m xs i = inr i

module _ (live : Drifts) where
  pub drifted-want :
      (n : Str) (ps : List ReleasePlan)
      → In n (drifted_names convergeable live ps)
      → convergeable (drift_of n live) ≡ true
  unfolding drifted_names
  drifted-want n [] i = absurd i
  drifted-want n (rp ∷ ps) i =
      elim (In_if (convergeable (drift_of rp.name live)) n rp.name
        (drifted_names convergeable live ps) i) [
          | inl (e, q) ↦ subst (λ m. convergeable (drift_of m live) ≡ true) (sym q) e
          | inr k ↦ drifted-want n ps k
        ]

  want-drifted :
      (rp : ReleasePlan) (ps : List ReleasePlan)
      → In rp ps
      → convergeable (drift_of rp.name live) ≡ true
      → In rp.name (drifted_names convergeable live ps)
  unfolding drifted_names
  want-drifted rp [] i e = absurd i
  want-drifted rp (x ∷ ps) (inl q) e = rw (sym q, e) (inl refl)
  want-drifted rp (x ∷ ps) (inr i) e = ground (arith, want-drifted rp ps i e)

  wanted_in-drifted :
      (wanted : List Str) (ps : List ReleasePlan)
      → ((rp : ReleasePlan) → In rp ps → elem rp.name wanted ≡ convergeable (drift_of rp.name live))
      → wanted_in wanted ps ≡ drifted_names convergeable live ps
  unfolding drifted_names
  wanted_in-drifted wanted [] h = refl
  wanted_in-drifted wanted (rp ∷ ps) h =
      rw (h rp (inl refl), wanted_in-drifted wanted ps (λ r i. h r (inr i)))

  pub drifted_in :
      (ps : List ReleasePlan)
      → wanted_in (drifted_names convergeable live ps) ps ≡ drifted_names convergeable live ps
  drifted_in ps = wanted_in-drifted (drifted_names convergeable live ps) ps λ rp i. ground (
    arith,
    elem_iff rp.name (drifted_names convergeable live ps),
    drifted-want rp.name ps,
    want-drifted rp ps i,
  )

pub drifted-named :
    (live : Drifts) (n : Str) (ps : List ReleasePlan)
    → In n (drifted_names convergeable live ps)
    → In n (map (λ rp. rp.name) ps)
unfolding drifted_names
drifted-named live n [] i = absurd i
drifted-named live n (rp ∷ ps) i =
    elim (In_if (convergeable (drift_of rp.name live)) n rp.name _ i) [
      | inl (e, q) ↦ inl q
      | inr j ↦ inr (drifted-named live n ps j)
    ]
