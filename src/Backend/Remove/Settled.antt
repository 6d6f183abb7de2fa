-- ===== src/Backend/Remove/Settled.antt =====
-- What RemoveStack of backend/backend.go may remove, and what its success means.
use swarmcli_cd.Base.{
  ◌≡◌, ◌≢◌, ◌⊎◌, inl, inr, refl, sym, ap, subst, Bool, true, false, none, List, [], ◌∷◌, arith, Str,
  In, if◌then◌else◌, is_empty, seq_iff, In-keep, not, Option-cases, Outcome, Outcome-cases, ok, err,
}
use swarmcli_cd.Backend.{Labels, SelfMounts, label_at}
use swarmcli_cd.Backend.Records.{Platform, may_be_release_record}
use swarmcli_cd.Backend.Self.{reject_own_namespace}
use swarmcli_cd.Backend.Remove.{
  Sort, services, configs, secrets, networks, Call, is_spared, Held, Calls, Removed, Replies,
  RemoveError, listing, removing, gone, not_found, failed, sorts, doomed, noted, remove_items,
  remove_sorts, stack_remains, after_check, after_removal, remove_stack, after_listing,
  remains_listed,
}

module _ (pf : Platform) (w : Replies) (name : Str) where
  -- Listing one sort of what carries the stack's label.
  abbrev pub of_stack : Sort → Call
  of_stack sort = listing sort (record { label = pf.label_namespace; value = name })

  -- A config is not typed as a release record.
  abbrev pub NoRecord : Sort → Labels → Type 0
  NoRecord configs labels = label_at pf.label_type labels ≢ pf.type_release
  NoRecord services labels = Unit
  NoRecord secrets labels = Unit
  NoRecord networks labels = Unit

  -- The thing was listed under the stack's label, and is no config typed as a release record.
  abbrev pub Listed : Sort → Str → Type 0
  Listed sort id =
      (tr : Calls) × (items : List Held) × (h : Held) × (w.list (of_stack sort ∷ tr) ≡ ok items)
      × In h items
      × NoRecord sort h.labels
      × (h.id ≡ id)

  unspared : (sort : Sort) (l : Labels) → is_spared pf w sort l ≡ false → NoRecord sort l
  unfolding may_be_release_record
  unspared configs l e = ground (arith, seq_iff (label_at pf.label_type l) pf.type_release)
  unspared services l e = tt
  unspared secrets l e = tt
  unspared networks l e = tt

  doomed-NoRecord :
      (sort : Sort) (items : List Held) (h : Held)
      → In h (doomed pf w sort items)
      → In h items × NoRecord sort h.labels
  doomed-NoRecord sort items h m =
      let (i, e) = (In-keep (λ h. not (is_spared pf w sort h.labels)) h items).0 m in
      (i, unspared sort h.labels (ground arith))

  -- Each removal is of a thing that was listed.
  abbrev pub AllListed : Calls → Type 0
  AllListed [] = Unit
  AllListed (listing sort f ∷ tr) = AllListed tr
  AllListed (removing sort id ∷ tr) = Listed sort id × AllListed tr

  -- Each removal succeeded, or found its thing gone.
  abbrev pub AllGone : Calls → Type 0
  AllGone [] = Unit
  AllGone (listing sort f ∷ tr) = AllGone tr
  AllGone (removing sort id ∷ tr) =
      ((w.remove (removing sort id ∷ tr) ≡ gone) ⊎ (w.remove (removing sort id ∷ tr) ≡ not_found))
      × AllGone tr

  -- The last calls list each sort again, and each listing shows nothing that would be removed.
  abbrev pub NothingLeft : List Sort → Calls → Calls → Type 0
  NothingLeft [] tr last = last ≡ tr
  NothingLeft (sort ∷ rest) tr last =
      (items : List Held) × (w.list (of_stack sort ∷ tr) ≡ ok items)
      × (doomed pf w sort items ≡ [])
      × NothingLeft rest (of_stack sort ∷ tr) last

  remove_items-AllListed :
      (sort : Sort) (hs : List Held) (errs : List RemoveError) (tr : Calls)
      → ((h : Held) → In h hs → Listed sort h.id)
      → AllListed tr
      → AllListed (remove_items pf w sort hs errs tr).1
  unfolding remove_items
  remove_items-AllListed sort [] errs tr l a = a
  remove_items-AllListed sort (h ∷ hs) errs tr l a =
      remove_items-AllListed sort hs _ (removing sort h.id ∷ tr) (λ x m. l x (inr m))
        (l h (inl refl), a)

  noted-none :
      (errs : List RemoveError) (r : Removed)
      → noted pf w errs r ≡ []
      → (errs ≡ []) × ((r ≡ gone) ⊎ (r ≡ not_found))
  noted-none errs gone h = (h, inl refl)
  noted-none errs not_found h = (h, inr refl)
  noted-none [] (failed e) h = cc
  noted-none (x ∷ errs) (failed e) h = cc

  remove_items-AllGone :
      (sort : Sort) (hs : List Held) (errs : List RemoveError) (tr : Calls)
      → (remove_items pf w sort hs errs tr).0 ≡ []
      → (errs ≡ []) × (AllGone tr → AllGone (remove_items pf w sort hs errs tr).1)
  unfolding remove_items
  remove_items-AllGone sort [] errs tr h = (h, λ g. g)
  remove_items-AllGone sort (x ∷ hs) errs tr h =
      let (e, f) = remove_items-AllGone sort hs _ (removing sort x.id ∷ tr) h in
      let (e', r) = noted-none errs (w.remove (removing sort x.id ∷ tr)) e in (e', λ g. f (r, g))

  after_listing-AllListed :
      (sort : Sort) (errs : List RemoveError)
      (next : List RemoveError → Calls → Outcome Str (List RemoveError) × Calls)
      (o : Outcome Str (List Held)) (tr : Calls)
      → w.list (of_stack sort ∷ tr) ≡ o
      → ((errs : List RemoveError) (tr : Calls) → AllListed tr → AllListed (next errs tr).1)
      → AllListed tr
      → AllListed (after_listing pf w sort errs next o (of_stack sort ∷ tr)).1
  after_listing-AllListed sort errs next (err e) tr k n a = a
  after_listing-AllListed sort errs next (ok items) tr k n a = n _ _ (
      remove_items-AllListed sort (doomed pf w sort items) errs (of_stack sort ∷ tr)
        (λ h m. let (i, n) = doomed-NoRecord sort items h m in (tr, items, h, k, i, n, refl)) a)

  remove_sorts-AllListed :
      (rest : List Sort) (errs : List RemoveError) (tr : Calls)
      → AllListed tr
      → AllListed (remove_sorts pf w name rest errs tr).1
  unfolding remove_sorts
  remove_sorts-AllListed [] errs tr a = a
  remove_sorts-AllListed (sort ∷ rest) errs tr a =
      after_listing-AllListed sort errs (remove_sorts pf w name rest) (w.list (of_stack sort ∷ tr))
        tr refl (remove_sorts-AllListed rest) a

  after_listing-AllGone :
      (sort : Sort) (errs : List RemoveError)
      (next : List RemoveError → Calls → Outcome Str (List RemoveError) × Calls)
      (o : Outcome Str (List Held)) (tr : Calls)
      → ((errs : List RemoveError) (tr : Calls)
          → (next errs tr).0 ≡ ok []
          → (errs ≡ []) × (AllGone tr → AllGone (next errs tr).1))
      → (after_listing pf w sort errs next o tr).0 ≡ ok []
      → (errs ≡ []) × (AllGone tr → AllGone (after_listing pf w sort errs next o tr).1)
  after_listing-AllGone sort errs next (err e) tr n h = cc
  after_listing-AllGone sort errs next (ok items) tr n h =
      let (e, f) = n _ _ h in
      let (e', f') = remove_items-AllGone sort (doomed pf w sort items) errs tr e in
      (e', λ g. f (f' g))

  remove_sorts-AllGone :
      (rest : List Sort) (errs : List RemoveError) (tr : Calls)
      → (remove_sorts pf w name rest errs tr).0 ≡ ok []
      → (errs ≡ []) × (AllGone tr → AllGone (remove_sorts pf w name rest errs tr).1)
  unfolding remove_sorts
  remove_sorts-AllGone [] errs tr h = (ground arith, λ g. g)
  remove_sorts-AllGone (sort ∷ rest) errs tr h =
      after_listing-AllGone sort errs (remove_sorts pf w name rest) (w.list (of_stack sort ∷ tr))
        (of_stack sort ∷ tr) (remove_sorts-AllGone rest) h

  remains_listed-NothingLeft :
      (sort : Sort) (rest : List Sort) (later : Outcome Str Bool × Calls)
      (o : Outcome Str (List Held)) (tr : Calls)
      → w.list (of_stack sort ∷ tr) ≡ o
      → (later.0 ≡ ok false → NothingLeft rest (of_stack sort ∷ tr) later.1)
      → (remains_listed pf w sort later o (of_stack sort ∷ tr)).0 ≡ ok false
      → NothingLeft (sort ∷ rest) tr (remains_listed pf w sort later o (of_stack sort ∷ tr)).1
  remains_listed-NothingLeft sort rest later (err e) tr k n h = cc
  remains_listed-NothingLeft sort rest later (ok items) tr k n h =
      left (doomed pf w sort items) refl h
    where
      left :
          (ds : List Held)
          → doomed pf w sort items ≡ ds
          → (if is_empty ds then later else (ok true, of_stack sort ∷ tr)).0 ≡ ok false
          → NothingLeft
              (sort ∷ rest)
              tr
              (if is_empty ds then later else (ok true, of_stack sort ∷ tr)).1
      left [] e q = (items, k, e, n q)
      left (d ∷ ds) e q = ground arith

  stack_remains-NothingLeft :
      (rest : List Sort) (tr : Calls)
      → (stack_remains pf w name rest tr).0 ≡ ok false
      → NothingLeft rest tr (stack_remains pf w name rest tr).1
  unfolding stack_remains
  stack_remains-NothingLeft [] tr h = refl
  stack_remains-NothingLeft (sort ∷ rest) tr h =
      remains_listed-NothingLeft sort rest (stack_remains pf w name rest (of_stack sort ∷ tr))
        (w.list (of_stack sort ∷ tr)) tr refl (stack_remains-NothingLeft rest (of_stack sort ∷ tr))
        h

  either-AllListed :
      (c : Bool) (x y : Outcome Str Bool × Calls)
      → AllListed x.1
      → AllListed y.1
      → AllListed (if c then x else y).1
  either-AllListed true x y a b = a
  either-AllListed false x y a b = b

  stack_remains-AllListed :
      (rest : List Sort) (tr : Calls) → AllListed tr → AllListed (stack_remains pf w name rest tr).1
  unfolding stack_remains
  stack_remains-AllListed [] tr a = a
  stack_remains-AllListed (sort ∷ rest) tr a = elim (Outcome-cases (w.list (of_stack sort ∷ tr))) [
    | inr (e, k) ↦ rw (k, remains_listed) a
    | inl (items, k) ↦
        rw (k, remains_listed)
          (either-AllListed (is_empty (doomed pf w sort items)) _ _
            (stack_remains-AllListed rest (of_stack sort ∷ tr) a) a)
  ]

  after_check-same :
      (errs : List RemoveError) (r : Outcome Str Bool × Calls) → (after_check pf w errs r).1 ≡ r.1
  after_check-same errs (err e, tr) = refl
  after_check-same errs (ok false, tr) = refl
  after_check-same errs (ok true, tr) = refl

  after_removal-AllListed :
      (r : Outcome Str (List RemoveError) × Calls)
      → AllListed r.1
      → AllListed (after_removal pf w name r).1
  after_removal-AllListed (err e, tr) a = a
  after_removal-AllListed (ok [], tr) a = a
  after_removal-AllListed (ok (e ∷ es), tr) a =
      subst AllListed (sym (after_check-same (e ∷ es) (stack_remains pf w name sorts tr)))
        (stack_remains-AllListed sorts tr a)

  abbrev pub Done : Calls → Type 0
  Done tr = AllGone tr ⊎ ((before : Calls) × NothingLeft sorts before tr)

  after_removal-Done :
      (r : Outcome Str (List RemoveError) × Calls)
      → (r.0 ≡ ok [] → AllGone r.1)
      → (after_removal pf w name r).0 ≡ []
      → Done (after_removal pf w name r).1
  after_removal-Done (err e, tr) g h = cc
  after_removal-Done (ok [], tr) g h = inl (g refl)
  after_removal-Done (ok (e ∷ es), tr) g h = checked (stack_remains pf w name sorts tr) refl h
    where
      checked :
          (x : Outcome Str Bool × Calls)
          → stack_remains pf w name sorts tr ≡ x
          → (after_check pf w (e ∷ es) x).0 ≡ []
          → Done (after_check pf w (e ∷ es) x).1
      checked (err f, tr') k q = cc
      checked (ok true, tr') k q = cc
      checked (ok false, tr') k q = inr (
        tr,
        subst (λ y. NothingLeft sorts tr y.1) k
            (stack_remains-NothingLeft sorts tr (ap (λ y. y.0) k)),
      )

module _ (pf : Platform) (w : Replies) where
  -- A stack that is not this controller's, by a name that is not empty.
  abbrev pub Foreign : Outcome Str SelfMounts → Str → Type 0
  Foreign mounts name =
      (name ≢ []) × ((mine : SelfMounts) × (mounts ≡ ok mine) × (mine.namespace ≢ name))

  passed_own :
      (mounts : Outcome Str SelfMounts) (name : Str)
      → name ≢ []
      → reject_own_namespace mounts name ≡ none
      → Foreign mounts name
  unfolding reject_own_namespace
  passed_own (ok mine) name n h = (n, (mine, refl, ground (arith, seq_iff mine.namespace name)))
  passed_own (err e) name n h = cc

  -- Removing a stack makes no call at all, or the stack has a name that is not the controller's
  -- own and each thing it removes was listed under the stack's label and is no config typed as a
  -- release record.
  pub remove_stack-AllListed :
      (mounts : Outcome Str SelfMounts) (name : Str)
      → ((remove_stack pf w mounts name []).1 ≡ [])
        ⊎ (Foreign mounts name × AllListed pf w name (remove_stack pf w mounts name []).1)
  unfolding remove_stack
  remove_stack-AllListed mounts [] = inl refl
  remove_stack-AllListed mounts (c ∷ cs) =
      elim (Option-cases (reject_own_namespace mounts (c ∷ cs))) [
        | inr (e, k) ↦ inl (rw (k, remove_stack) refl)
        | inl k ↦ inr (
          passed_own mounts (c ∷ cs) (λ e. cc) k,
          rw (k, remove_stack)
              (after_removal-AllListed pf w (c ∷ cs) (remove_sorts pf w (c ∷ cs) sorts [] [])
                (remove_sorts-AllListed pf w (c ∷ cs) sorts [] [] tt)),
        )
      ]

  -- Removing a stack ends without an error only if every thing that it removed went or was gone, or
  -- its last calls list each sort of the stack again and show nothing that would be removed.
  pub remove_stack-Done :
      (mounts : Outcome Str SelfMounts) (name : Str)
      → (remove_stack pf w mounts name []).0 ≡ []
      → Done pf w name (remove_stack pf w mounts name []).1
  unfolding remove_stack
  remove_stack-Done mounts [] h = cc
  remove_stack-Done mounts (c ∷ cs) h = elim (Option-cases (reject_own_namespace mounts (c ∷ cs))) [
    | inr (e, k) ↦ ground arith
    | inl k ↦
        rw (k, remove_stack)
          (after_removal-Done pf w (c ∷ cs) (remove_sorts pf w (c ∷ cs) sorts [] [])
            (λ q. (remove_sorts-AllGone pf w (c ∷ cs) sorts [] [] q).1 tt) (ground arith))
  ]
