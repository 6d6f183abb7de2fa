-- ===== src/Reconcile/Converge/Waves.antt =====
-- What the loops of converge, in reconcile/reconcile.go, write and collect.
use swarmcli_cd.Base.{
  ℕ, ◌≡◌, refl, sym, subst, Bool, ◌||◌, Option, none, some, List, [], ◌∷◌, ◌++◌, append-nil,
  append_assoc, arith, Str, elem, elem_iff, In, All, ok, err, Bool-cases, inl, inr, is_empty, map,
}
use swarmcli_cd.Reconcile.Installs.{ReleasePlan}
use swarmcli_cd.Reconcile.Installs.Waves.{concat}
use swarmcli_cd.Reconcile.Converge.{
  Answers, Event, deploy, read, clock, wait, Trace, converging, await_settled, Result, Drifts,
  drift_of, correcting, manifest_of, Pass, Passed, and_next, settled, after_deploy, deploying,
  correct, correct_wave, wave_of, barred, boundary, correct_waves,
}
use swarmcli_cd.Reconcile.Converge.Quiet.{IsQuiet, await_settled-keeps, await_converged-keeps}
use swarmcli_cd.Reconcile.Converge.Drifted.{wanted_in, wanted_in-append}

pub snoc_not_empty : {A : Type 0} (xs : List A) (x : A) → ¬ (xs ++ (x ∷ []) ≡ [])
snoc_not_empty [] x e = ground arith
snoc_not_empty (y ∷ ys) x e = ground arith

module _ (w : Answers) where
  -- The deploys of a trace with what answered them, the oldest first.
  unfoldable pub deploys : Trace → List (Str × Option Str)
  deploys [] = []
  deploys (deploy n m ∷ tr) = deploys tr ++ ((n, w.deployed (deploy n m ∷ tr)) ∷ [])
  deploys (read n ∷ tr) = deploys tr
  deploys (clock ∷ tr) = deploys tr
  deploys (wait ∷ tr) = deploys tr

-- A deploy of each name, without an error.
abbrev pub accepted : List Str → List (Str × Option Str)
accepted = map (λ n. (n, none))

module _ (w : Answers) (policy : Bool × ℕ) (plan : List ReleasePlan) (live : Drifts)
    (wanted : List Str) where
  -- A deploy is of a wanted release, with the manifest that the plan holds for it.
  abbrev pub Allowed : Event → Type 0
  Allowed (deploy n m) = In n wanted × (m ≡ manifest_of n plan)
  Allowed (read n) = Unit
  Allowed clock = Unit
  Allowed wait = Unit

  -- If no error is collected, then none was before, and these names were deployed and added.
  abbrev pub Corrects : List Str → Pass w → Trace → Passed w → Type 0
  Corrects names p tr0 (ok q, tr) =
      q.errs ≡ []
      → (p.errs ≡ [])
        × (q.converged ≡ p.converged ++ names)
        × (deploys w tr ≡ deploys w tr0 ++ accepted names)
  Corrects names p tr0 (err e, tr) = Unit

  abbrev pub Sound : List Str → Pass w → Trace → Passed w → Type 0
  Sound names p tr0 o = All Allowed o.1 × Corrects names p tr0 o

  accepted-append : (xs ys : List Str) → accepted (xs ++ ys) ≡ accepted xs ++ accepted ys
  accepted-append [] ys = refl
  accepted-append (x ∷ xs) ys = ground (arith, accepted-append xs ys)

  joined :
      {A : Type 0} (a b c xs ys zs : List A)
      → b ≡ a ++ xs
      → c ≡ b ++ ys
      → zs ≡ xs ++ ys
      → c ≡ a ++ zs
  joined a b c xs ys zs f g h = ground (arith, append_assoc a xs ys)

  Corrects-trans :
      (xs ys : List Str) (p q : Pass w) (tr0 tr : Trace) (o : Passed w)
      → Corrects xs p tr0 (ok q, tr)
      → Corrects ys q tr o
      → Corrects (xs ++ ys) p tr0 o
  Corrects-trans xs ys p q tr0 tr (err e, tr') a b = tt
  Corrects-trans xs ys p q tr0 tr (ok r, tr') a b = λ e.
      let (f, s, d) = b e in
      let (g, t, c) = a f in
      (
        g,
        joined p.converged q.converged r.converged xs ys (xs ++ ys) t s refl,
        joined (deploys w tr0) (deploys w tr) (deploys w tr') (accepted xs) (accepted ys)
            (accepted (xs ++ ys)) c d (accepted-append xs ys),
      )

  Allowed-IsQuiet : IsQuiet (All Allowed)
  Allowed-IsQuiet = record {
    of_read = λ r tr a. (tt, a);
    of_clock = λ tr a. (tt, a);
    of_wait = λ tr a. (tt, a);
  }

  deploys-IsQuiet : (before : List (Str × Option Str)) → IsQuiet (λ tr. deploys w tr ≡ before)
  unfolding deploys
  deploys-IsQuiet before = record {
    of_read = λ r tr a. a;
    of_clock = λ tr a. a;
    of_wait = λ tr a. a;
  }

  settled-Sound :
      (release : Str) (scope : List Str) (p : Pass w) (tr0 : Trace) (r : Result)
      → All Allowed r.1
      → deploys w r.1 ≡ deploys w tr0 ++ accepted (release ∷ [])
      → Sound
          (release ∷ [])
          p
          tr0
          (let (p', tr') = settled w policy plan live release scope p r in (ok p', tr'))
  settled-Sound release scope p tr0 (some e, tr) a d =
      (a, λ q. absurd (snoc_not_empty p.errs (converging release e) q))
  settled-Sound release scope p tr0 (none, tr) a d = (a, λ q. (q, refl, d))

  after_deploy-Sound :
      (release : Str) (p : Pass w) (tr0 : Trace) (o : Option Str) (tr : Trace)
      → All Allowed tr
      → deploys w tr ≡ deploys w tr0 ++ ((release, o) ∷ [])
      → Sound
          (release ∷ [])
          p
          tr0
          (let (p', tr') = after_deploy w policy plan live release p o tr in (ok p', tr'))
  after_deploy-Sound release p tr0 (some e) tr a d = (a, λ q. absurd (snoc_not_empty p.errs _ q))
  after_deploy-Sound release p tr0 none tr a d =
      let scope = correcting (drift_of release live) in
      settled-Sound release scope p tr0 _
        (await_converged-keeps w (All Allowed) Allowed-IsQuiet policy release scope tr a)
        (await_converged-keeps w (λ t. deploys w t ≡ deploys w tr0 ++ accepted (release ∷ []))
          (deploys-IsQuiet (deploys w tr0 ++ accepted (release ∷ []))) policy release scope tr d)

  sent :
      (n m : Str) (tr : Trace)
      → deploys w (deploy n m ∷ tr) ≡ deploys w tr ++ ((n, w.deployed (deploy n m ∷ tr)) ∷ [])
  unfolding deploys
  sent n m tr = refl

  correct-Sound :
      (rp : ReleasePlan) (p : Pass w) (tr : Trace)
      → All Allowed tr
      → Sound (wanted_in wanted (rp ∷ [])) p tr (correct w policy plan live wanted rp p tr)
  unfolding correct
  correct-Sound rp p tr a = elim (Bool-cases (elem rp.name wanted)) [
    | inr e ↦ rw (e, append-nil p.converged, append-nil (deploys w tr)) (a, λ q. (q, refl, refl))
    | inl e ↦ elim (Bool-cases (w.is_cancelled tr)) [
      | inl c ↦ rw (e, c) (a, tt)
      | inr c ↦
          rw (e, c)
            (after_deploy-Sound rp.name p tr _ (deploying w policy plan live rp.name ∷ tr)
              (((elem_iff rp.name wanted).0 e, refl), a)
              (sent rp.name (manifest_of rp.name plan) tr))
    ]
  ]

  and_next-Sound :
      (xs ys : List Str) (p : Pass w) (tr0 : Trace) (o : Passed w)
      (next : Pass w → Trace → Passed w)
      → Sound xs p tr0 o
      → ((q : Pass w) (tr : Trace) → All Allowed tr → Sound ys q tr (next q tr))
      → Sound (xs ++ ys) p tr0 (and_next w o next)
  and_next-Sound xs ys p tr0 (err e, tr) next s h = (s.0, tt)
  and_next-Sound xs ys p tr0 (ok q, tr) next s h =
      let (a, c) = h q tr s.0 in (a, Corrects-trans xs ys p q tr0 tr (next q tr) s.1 c)

  correct_wave-Sound :
      (wave : List ReleasePlan) (p : Pass w) (tr : Trace)
      → All Allowed tr
      → Sound (wanted_in wanted wave) p tr (correct_wave w policy plan live wanted wave p tr)
  unfolding correct_wave
  correct_wave-Sound [] p tr a =
      (a, λ e. (e, sym (append-nil p.converged), sym (append-nil (deploys w tr))))
  correct_wave-Sound (rp ∷ rest) p tr a =
      subst (λ xs. Sound xs p tr (correct_wave w policy plan live wanted (rp ∷ rest) p tr))
        (sym (wanted_in-append wanted (rp ∷ []) rest))
        (and_next-Sound (wanted_in wanted (rp ∷ [])) (wanted_in wanted rest) p tr
          (correct w policy plan live wanted rp p tr) _ (correct-Sound rp p tr a)
          (correct_wave-Sound rest))

  since :
      (ys : List Str) (p : Pass w) (tr tr0 : Trace) (o : Passed w)
      → deploys w tr ≡ deploys w tr0
      → Sound ys p tr o
      → Sound ys p tr0 o
  since ys p tr tr0 (err e, t) d s = s
  since ys p tr tr0 (ok q, t) d s = (s.0, λ e. let (f, c, g) = s.1 e in (f, c, rw (sym d) g))

  barred-Sound :
      (ys : List Str) (wave : ℕ) (next : Pass w → Trace → Passed w) (p : Pass w) (tr0 : Trace)
      (r : Result)
      → All Allowed r.1
      → deploys w r.1 ≡ deploys w tr0
      → ((tr : Trace) → All Allowed tr → Sound ys p tr (next p tr))
      → Sound ys p tr0 (barred w policy plan live wave next p r)
  barred-Sound ys wave next p tr0 (some e, tr) a d h = (a, λ q. absurd (snoc_not_empty p.errs _ q))
  barred-Sound ys wave next p tr0 (none, tr) a d h = since ys p tr tr0 (next p tr) d (h tr a)

  boundary-Sound :
      (ys : List Str) (wave : ℕ) (is_last : Bool) (next : Pass w → Trace → Passed w) (p : Pass w)
      (tr : Trace)
      → All Allowed tr
      → ((tr : Trace) → All Allowed tr → Sound ys p tr (next p tr))
      → Sound ys p tr (boundary w policy plan live wave is_last next p tr)
  boundary-Sound ys wave is_last next p tr a h = elim (Bool-cases (is_last || is_empty p.scopes)) [
    | inl e ↦ rw e (h tr a)
    | inr e ↦ rw e (
        barred-Sound ys wave next p tr (await_settled w policy.1 p.scopes tr)
          (await_settled-keeps w (All Allowed) Allowed-IsQuiet policy.1 p.scopes tr a)
          (await_settled-keeps w (λ t. deploys w t ≡ deploys w tr) (deploys-IsQuiet (deploys w tr))
            policy.1 p.scopes tr refl)
          h)
  ]

  pub correct_waves-Sound :
      (waves : List (List ReleasePlan)) (p : Pass w) (tr : Trace)
      → All Allowed tr
      → Sound
          (wanted_in wanted (concat waves))
          p
          tr
          (correct_waves w policy plan live wanted waves p tr)
  unfolding correct_waves
  correct_waves-Sound [] p tr a =
      (a, λ e. (e, sym (append-nil p.converged), sym (append-nil (deploys w tr))))
  correct_waves-Sound (wave ∷ rest) p tr a =
      subst (λ xs. Sound xs p tr (correct_waves w policy plan live wanted (wave ∷ rest) p tr))
        (sym (wanted_in-append wanted wave (concat rest)))
        (and_next-Sound (wanted_in wanted wave) (wanted_in wanted (concat rest)) p tr
          (correct_wave w policy plan live wanted wave (record p { scopes = [] }) tr) _
          (correct_wave-Sound wave (record p { scopes = [] }) tr a)
          λ q t b.
            boundary-Sound (wanted_in wanted (concat rest)) (wave_of w policy plan live wave)
              (is_empty rest) (correct_waves w policy plan live wanted rest) q t b
              (correct_waves-Sound rest q))
