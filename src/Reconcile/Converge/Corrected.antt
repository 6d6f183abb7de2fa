-- ===== src/Reconcile/Converge/Corrected.antt =====
-- What converge, in reconcile/reconcile.go, redeploys.
use swarmcli_cd.Base.{
  none, ◌++◌, ℕ, ◌≡◌, refl, sym, ap, subst, ◌∙◌, Bool, true, false, List, [], ◌∷◌, arith, Str, In,
  All, ok, Bool-cases, inl, inr, map, is_empty,
}
use swarmcli_cd.Reconcile.Installs.{ReleasePlan, wave_groups}
use swarmcli_cd.Reconcile.Installs.Waves.{wave_groups_exact}
use swarmcli_cd.Reconcile.Converge.{
  Answers, Event, deploy, read, clock, wait, Trace, Drifts, drift_of, convergeable, drifted_names,
  drifted_releases, manifest_of, Pass, begun, Passed, correct_waves, converge,
}
use swarmcli_cd.Reconcile.Converge.Drifted.{wanted_in, drifted_in, drifted-want, drifted-named}
use swarmcli_cd.Reconcile.Converge.Waves.{Allowed, deploys, Corrects, Sound, correct_waves-Sound}

module _ (w : Answers) (policy : Bool × ℕ) (plan : List ReleasePlan) (live : Drifts) where
  -- A deploy is of a release of the plan, with the manifest that the plan holds for it, whose
  -- difference a redeploy can put right.
  abbrev pub Restores : Event → Type 0
  Restores (deploy n m) =
      In n (map (λ rp. rp.name) plan)
      × (convergeable (drift_of n live) ≡ true)
      × (m ≡ manifest_of n plan)
  Restores (read n) = Unit
  Restores clock = Unit
  Restores wait = Unit

  abbrev due : List Str
  due = drifted_releases plan live convergeable

  In-drifted : (n : Str) → In n due → In n (drifted_names convergeable live plan)
  unfolding drifted_releases
  In-drifted n i = ground arith

  Allowed-Restores : (e : Event) → Allowed w policy plan live due e → Restores e
  Allowed-Restores (deploy n m) (i, q) =
      let k = In-drifted n i in (drifted-named live n plan k, drifted-want live n plan k, q)
  Allowed-Restores (read n) a = tt
  Allowed-Restores clock a = tt
  Allowed-Restores wait a = tt

  every : (tr : Trace) → All (Allowed w policy plan live due) tr → All Restores tr
  every [] a = tt
  every (e ∷ tr) a = (Allowed-Restores e a.0, every tr a.1)

  wanted_names : is_empty due ≡ false → wanted_in due plan ≡ due
  unfolding drifted_releases
  wanted_names e = elim (Bool-cases (is_empty live)) [
    | inl k ↦ ground arith
    | inr k ↦ rw k (drifted_in live plan)
  ]

  empty_of : {A : Type 0} (xs : List A) → is_empty xs ≡ true → xs ≡ []
  empty_of [] e = refl
  empty_of (x ∷ xs) e = ground arith

  none_sent : due ≡ [] → deploys w [] ≡ deploys w [] ++ map (λ n. (n, none)) due
  unfolding deploys
  none_sent e = rw e refl

  converge-Sound : Sound w policy plan live due due (begun w) [] (converge w policy plan live [])
  unfolding converge
  converge-Sound = elim (Bool-cases (is_empty due)) [
    | inl e ↦ rw e (tt, λ q. (refl, sym (empty_of due e), none_sent (empty_of due e)))
    | inr e ↦ rw e (
        subst
          (λ xs.
            Sound w policy plan live due xs (begun w) []
              (correct_waves w policy plan live due (wave_groups plan) (begun w) []))
          (ap (wanted_in due) (wave_groups_exact plan).0 ∙ wanted_names e)
          (correct_waves-Sound w policy plan live due (wave_groups plan) (begun w) [] tt))
  ]

  -- Whatever answers its calls, a correction deploys only releases of the plan whose drift a redeploy
  -- can put right, each with the manifest that the plan holds for it.
  pub converge-Restores : All Restores (converge w policy plan live []).1
  converge-Restores = every (converge w policy plan live []).1 converge-Sound.0

  -- A correction that ends without an error has sent a deploy for exactly the releases whose drift a
  -- redeploy can put right, in the plan's order, and each of these deploys was accepted; the same
  -- releases are those that it reports.
  pub converge_exact :
      (p : Pass w) (tr : Trace)
      → converge w policy plan live [] ≡ (ok p, tr)
      → p.errs ≡ []
      → (deploys w tr ≡ map (λ n. (n, none)) (drifted_releases plan live convergeable))
        × (p.converged ≡ drifted_releases plan live convergeable)
  unfolding deploys
  converge_exact p tr e q =
      let (f, c, d) =
        subst (λ (o : Passed w). Corrects w policy plan live due due (begun w) [] o) e
          converge-Sound.1 q in
      (d, c)
