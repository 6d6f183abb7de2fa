-- ===== src/Reconcile/Doomed/Remembered.antt =====
-- What `departed` of reconcile/reconcile.go remembers of the failures so far.
use swarmcli_cd.Base.{
  ℕ, ltb, ◌≡◌, ◌⊎◌, inl, inr, refl, sym, subst, ap, Bool, true, false, Option, none, some, List, [],
  ◌∷◌, ◌++◌, arith, Str, seq, seq_iff, In, In-append, All, Outcome, Bool-cases, if◌then◌else◌,
}
use swarmcli_cd.Prune.Rule.{OwnerRef}
use swarmcli_cd.Backend.{Stack}
use swarmcli_cd.Reconcile.Doomed.{ResourceNames, Revision, is_no_names}
use swarmcli_cd.Reconcile.Doomed.Departed.{
  ReleaseView, DepartedResource, DoomedSet, Counts, count_of, prune_key, candidates, add_doomed,
  add_all_doomed, all_resources, no_resources, doomed_set, proved_of, departed_release,
  departed_loop, departed,
}

-- Of the counts so far, each is the one that was remembered.
abbrev Copied : Counts → Counts → Type 0
Copied was still = All (λ (kv : Str × ℕ). kv.1 ≡ count_of kv.0 was) still

-- A failure that was remembered under the key is found again.
abbrev Keeps : Counts → Str → Counts → Type 0
Keeps was key still = (count_of key was ≡ 0) ⊎ In (key, count_of key was) still

Keeps-count :
    (was : Counts) (key : Str) (still : Counts)
    → Copied was still
    → Keeps was key still
    → count_of key still ≡ count_of key was
unfolding count_of
Keeps-count was key [] c (inl e) = sym e
Keeps-count was key [] c (inr i) = absurd i
Keeps-count was key (kv ∷ rest) c k = elim (Bool-cases (seq kv.0 key)) [
  | inl e ↦ rw e (subst (λ x. kv.1 ≡ count_of x was) ((seq_iff kv.0 key).0 e) c.0)
  | inr e ↦ rw e (Keeps-count was key rest c.1 (later k e))
]
  where
    later : Keeps was key (kv ∷ rest) → seq kv.0 key ≡ false → Keeps was key rest
    later (inl z) e = inl z
    later (inr (inl q)) e = ground (arith, ap (λ x. x.0) q, seq_iff kv.0 key)
    later (inr (inr i)) e = inr i

-- The set holds the resource, to try it or to report it.
abbrev pub Holds : DoomedSet → DepartedResource → Type 0
Holds set x = In x set.resources ⊎ In x set.retained

wider :
    (was : Counts) (k : Str) (c : Bool) (kv : Str × ℕ) (still : Counts)
    → Keeps was k still
    → Keeps was k (if c then kv ∷ still else still)
wider was k false kv still h = h
wider was k true kv still (inl z) = inl z
wider was k true kv still (inr i) = inr (inr i)

module _ (was : Counts) (release : Str) where
  abbrev Sure : DoomedSet × Counts → Type 0
  Sure st =
      Copied was st.1
      × ((x : DepartedResource) → Holds st.0 x → Keeps was (prune_key release x) st.1)

  -- No remembered failure is lost on the way.
  abbrev Wider : Counts → Counts → Type 0
  Wider still still' = (k : Str) → Keeps was k still → Keeps was k still'

  own_key :
      (key : Str) (still : Counts)
      → Keeps was key (if ltb 0 (count_of key was) then (key, count_of key was) ∷ still else still)
  own_key key still = elim (Bool-cases (ltb 0 (count_of key was))) [
    | inl e ↦ rw e (inr (inl refl))
    | inr e ↦ inl (ground arith)
  ]

  Copied-more :
      (key : Str) (still : Counts) (c : Bool)
      → Copied was still
      → Copied was (if c then (key, count_of key was) ∷ still else still)
  Copied-more key still true h = (refl, h)
  Copied-more key still false h = h

  one_more :
      (x res : DepartedResource) (xs : List DepartedResource)
      → In x (xs ++ (res ∷ []))
      → In x xs ⊎ (x ≡ res)
  one_more x res xs i = elim ((In-append x xs (res ∷ [])).0 i) [
    | inl j ↦ inl j
    | inr (inl e) ↦ inr e
    | inr (inr b) ↦ absurd b
  ]

  held_before :
      (c : Bool) (x res : DepartedResource) (set : DoomedSet)
      → Holds
          (if c
            then record set { retained = set.retained ++ (res ∷ []) }
            else record set { resources = set.resources ++ (res ∷ []) })
          x
      → Holds set x ⊎ (x ≡ res)
  held_before true x res set (inl i) = inl (inl i)
  held_before true x res set (inr i) = elim (one_more x res set.retained i) [
    | inl j ↦ inl (inr j)
    | inr e ↦ inr e
  ]
  held_before false x res set (inl i) = elim (one_more x res set.resources i) [
    | inl j ↦ inl (inl j)
    | inr e ↦ inr e
  ]
  held_before false x res set (inr i) = inl (inr i)

  add_doomed-Sure :
      (res : DepartedResource) (st : DoomedSet × Counts)
      → Sure st
      → Sure (add_doomed was release res st) × Wider st.1 (add_doomed was release res st).1
  unfolding add_doomed
  add_doomed-Sure res (set, still) (c, h) = (
    (
      Copied-more (prune_key release res) still _ c,
      λ x m. elim (held_before _ x res set m) [
        | inl j ↦ wider was (prune_key release x) _ _ still (h x j)
        | inr e ↦
            subst
              (λ y. Keeps was (prune_key release y) (
                if ltb 0 (count_of (prune_key release res) was)
                then (prune_key release res, count_of (prune_key release res) was) ∷ still
                else still))
              (sym e) (own_key (prune_key release res) still)
      ],
    ),
    λ k i. wider was k _ _ still i,
  )

  add_all_doomed-Sure :
      (rs : List DepartedResource) (st : DoomedSet × Counts)
      → Sure st
      → Sure (add_all_doomed was release rs st) × Wider st.1 (add_all_doomed was release rs st).1
  unfolding add_all_doomed
  add_all_doomed-Sure [] st h = (h, λ k i. i)
  add_all_doomed-Sure (r ∷ rs) st h =
      let (a, x) = add_doomed-Sure r st h in
      let (b, y) = add_all_doomed-Sure rs (add_doomed was release r st) a in (b, λ k i. y k (x k i))

  doomed_set-Sure :
      (v : ReleaseView) (proved : ResourceNames) (still : Counts)
      → Copied was still
      → Sure (doomed_set was release v proved still)
        × Wider still (doomed_set was release v proved still).1
  unfolding doomed_set
  doomed_set-Sure v proved still c =
      add_all_doomed-Sure (all_resources v proved) (no_resources v proved, still)
        (c, λ x m. elim m [ inl i ↦ absurd i | inr i ↦ absurd i ])

module _ (parse_owner : Str → Option OwnerRef) (kind_release controller app : Str)
    (read_declared : Revision → Outcome Str Stack) (history : Str → Outcome Str (List Revision))
    (was : Counts) (views : Str → Option ReleaseView) where
  abbrev AllSure : List (Str × DoomedSet) × Counts → Type 0
  AllSure st =
      Copied was st.1
      × ((release : Str) (set : DoomedSet) (x : DepartedResource)
          → In (release, set) st.0
          → Holds set x
          → Keeps was (prune_key release x) st.1)

  either :
      (c : Bool) (x y : List (Str × DoomedSet) × Counts)
      → AllSure x
      → AllSure y
      → AllSure (if c then x else y)
  either true x y a b = a
  either false x y a b = b

  added :
      (release : Str) (out : List (Str × DoomedSet)) (still : Counts) (st : DoomedSet × Counts)
      → AllSure (out, still)
      → Sure was release st × Wider was release still st.1
      → AllSure (out ++ ((release, st.0) ∷ []), st.1)
  added release out still st (c, h) ((d, k), wide) = (
    d,
    λ r set x i m. elim ((In-append (r, set) out _).0 i) [
      | inl j ↦ wide (prune_key r x) (h r set x j m)
      | inr (inl q) ↦
          subst (λ (p : Str). Keeps was (prune_key p x) st.1) (sym (ap (λ p. p.0) q))
            (k x (subst (λ (s : DoomedSet). Holds s x) (ap (λ p. p.1) q) m))
      | inr (inr b) ↦ absurd b
    ],
  )

  departed_release-Sure :
      (release : Str) (o : Option ReleaseView) (st : List (Str × DoomedSet) × Counts)
      → AllSure st
      → AllSure (
          departed_release parse_owner kind_release controller app read_declared history was release
            o st)
  unfolding departed_release
  departed_release-Sure release none st h = h
  departed_release-Sure release (some v) (out, still) h =
      let proved =
        proved_of parse_owner kind_release controller app read_declared history release v in
      either v.failed _ _ h (
        either (is_no_names (candidates v)) _ _ h (
          either (is_no_names proved) _ _ h
            (added release out still _ h (doomed_set-Sure was release v proved still h.0))))

  departed_loop-Sure :
      (releases : List Str) (st : List (Str × DoomedSet) × Counts)
      → AllSure st
      → AllSure (
          departed_loop parse_owner kind_release controller app read_declared history was views
            releases st)
  unfolding departed_loop
  departed_loop-Sure [] st h = h
  departed_loop-Sure (r ∷ rs) st h =
      departed_loop-Sure rs _ (departed_release-Sure r (views r) st h)

  -- Of each resource that stands in a set, to be tried or only reported, the failures that are
  -- remembered afterwards are those that were remembered before.
  pub departed-remembers :
      (releases : List Str) (release : Str) (set : DoomedSet) (x : DepartedResource)
      → In
          (release, set)
          (departed parse_owner kind_release controller app read_declared history was views
            releases).0
      → Holds set x
      → count_of
          (prune_key release x)
          (departed parse_owner kind_release controller app read_declared history was views
            releases).1
        ≡ count_of (prune_key release x) was
  unfolding departed
  departed-remembers releases release set x i m =
      let (c, h) = departed_loop-Sure releases ([], []) (tt, λ r s y j n. absurd j) in
      Keeps-count was (prune_key release x) _ c (h release set x i m)
