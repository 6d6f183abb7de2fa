-- ===== src/Prune/Sweep/Whole.antt =====
-- The whole sweep, from its listing to its last event: prune/prune.go, Departed.
use swarmcli_cd.Base.{
  ◌≡◌, sym, subst, inl, inr, Bool, Option, List, [], ◌∷◌, arith, Str, ok, Outcome-cases, In,
}
use swarmcli_cd.Prune.Calls.{resolve_swarm, list_releases, Swarm}
use swarmcli_cd.Prune.Rule.{Release, OwnerRef, DepartedApp, departed}
use swarmcli_cd.Prune.Departing.{Holds, Obsolete, departed_iff}
use swarmcli_cd.Prune.Sweep.{find_departed, departed_sweep}
use swarmcli_cd.Prune.Sweep.Safety.{IsSafe, AllMay-of_Holds, sweep_apps-IsSafe}

module _ (s : Swarm) (purges : Bool) (parse_owner : Str → Option OwnerRef) (kind_release : Str)
    (desired declared : List Str) (controller : Str) where
  -- The sweep's own listing has a release of that name which is obsolete: stamped by this controller
  -- for an application that is not desired, and declared by nobody.
  abbrev pub MayGo : Str → Type 0
  MayGo r =
      (rels : List Release) × (app : Str) × (rel : Release) × (s.releases
          (list_releases ∷ resolve_swarm ∷ [])
        ≡ ok rels)
      × In rel rels
      × (rel.name ≡ r)
      × Obsolete parse_owner kind_release desired declared controller app rel

  find_departed-IsSafe :
      IsSafe s MayGo
        (find_departed s purges parse_owner kind_release desired declared controller []).1
  unfolding find_departed
  find_departed-IsSafe = ground arith

  found-MayGo :
      (apps : List DepartedApp)
      → (find_departed s purges parse_owner kind_release desired declared controller []).0 ≡ ok apps
      → (a r : Str) → Holds a r apps
      → MayGo r
  unfolding find_departed
  found-MayGo apps h a r k =
      elim (Outcome-cases (s.releases (list_releases ∷ resolve_swarm ∷ []))) [
        | inr (x, e) ↦ ground arith
        | inl (rels, e) ↦
            let same : departed parse_owner kind_release desired declared controller rels ≡ apps =
              ground arith in
            let (rel, i, n, o) =
              (departed_iff parse_owner kind_release desired declared controller a r rels).0
                (subst (λ gs. Holds a r gs) (sym same) k) in
            (rels, a, rel, e, i, n, o)
      ]

  -- Whatever answers its calls, a sweep takes down stacks and deletes records only of obsolete
  -- releases, removes volumes only by a name within such a release, and deletes a release's records
  -- only after the call that took its stack down returned no error.
  pub departed_sweep-IsSafe :
      IsSafe s MayGo
        (departed_sweep s purges parse_owner kind_release desired declared controller []).1
  unfolding departed_sweep
  departed_sweep-IsSafe =
      let f = find_departed s purges parse_owner kind_release desired declared controller [] in
      elim (Outcome-cases f.0) [
        | inr (x, e) ↦ ground (arith, find_departed-IsSafe)
        | inl (apps, e) ↦
            let q =
              sweep_apps-IsSafe s MayGo purges apps [] [] f.1
                (AllMay-of_Holds s MayGo purges apps (found-MayGo apps e)) find_departed-IsSafe in
            ground (arith, q)
      ]
