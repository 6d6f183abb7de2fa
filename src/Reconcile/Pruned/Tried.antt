-- ===== src/Reconcile/Pruned/Tried.antt =====
-- How often pruneResources of reconcile/reconcile.go tries to remove what does not go, over any
-- number of passes with `departed` before each.
use swarmcli_cd.Base.{
  ℕ, suc, ◌≤◌, ◌<◌, ◌≡◌, ◌↔◌, ◌⊎◌, inl, inr, refl, sym, subst, Bool, true, false, Option, none,
  some, List, [], ◌∷◌, ◌++◌, arith, Str, seq, seq_iff, In, elem, of_All, Bool-cases, not, ◌||◌,
  is_empty, Outcome, if◌then◌else◌,
}
use swarmcli_cd.Prune.Rule.{OwnerRef, sort_names}
use swarmcli_cd.Backend.{Stack}
use swarmcli_cd.Reconcile.Doomed.{Revision}
use swarmcli_cd.Reconcile.Doomed.Departed.{
  ReleaseView, DepartedResource, DoomedSet, Counts, count_of, prune_key, keys, departed,
}
use swarmcli_cd.Reconcile.Doomed.Spared.{departed-Spares}
use swarmcli_cd.Reconcile.Doomed.Remembered.{Holds, departed-remembers}
use swarmcli_cd.Reconcile.Pruned.{
  Member, declared_elsewhere, Removal, remove_resource, Removals, Pass, bump, drop_count, set_of,
  resources_of, remove_resources, prune_resource_sets, begun, prune_resources,
}
use swarmcli_cd.Reconcile.Pruned.Allowed.{May, later-May, In-set_of}

count_of-bump :
    (key : Str) (counts : Counts) → count_of key (bump key counts) ≡ suc (count_of key counts)
unfolding count_of bump
count_of-bump key [] = ground (arith, seq_iff key key)
count_of-bump key (kv ∷ rest) =
    ground (arith, count_of-bump key rest, seq_iff kv.0 key, seq_iff key key)

count_of-bump_other :
    (key other : Str) (counts : Counts)
    → seq other key ≡ false
    → count_of key (bump other counts) ≡ count_of key counts
unfolding count_of bump
count_of-bump_other key other [] h = ground arith
count_of-bump_other key other (kv ∷ rest) h = ground (
  arith,
  count_of-bump_other key other rest,
  seq_iff kv.0 key,
  seq_iff kv.0 other,
  seq_iff other key,
)

count_of-drop_other :
    (key other : Str) (counts : Counts)
    → seq other key ≡ false
    → count_of key (drop_count other counts) ≡ count_of key counts
unfolding count_of drop_count
count_of-drop_other key other [] h = refl
count_of-drop_other key other (kv ∷ rest) h = ground (
  arith,
  count_of-drop_other key other rest,
  seq_iff kv.0 key,
  seq_iff kv.0 other,
  seq_iff other key,
)

-- One resource of one release, and the removal of it, which never succeeds.
module _ (release : Str) (x : DepartedResource) (fails : Removals → Bool)
    (stays : (tr : Removals) → fails (remove_resource x.kind x.id ∷ tr) ≡ true) where
  abbrev key : Str
  key = prune_key release x

  abbrev pub attempt : Removal
  attempt = remove_resource x.kind x.id

  -- A resource has this one's key exactly if it is the same object.
  abbrev pub Alone : Str → DepartedResource → Type 0
  Alone r y = (prune_key r y ≡ key) ↔ ((y.kind ≡ x.kind) × (y.id ≡ x.id))

  -- The failures remembered have not become fewer, and are more after an attempt.
  abbrev Grown : ℕ → Pass × Removals → Type 0
  Grown n st = (n ≤ count_of key st.0.counts) × (In attempt st.1 → suc n ≤ count_of key st.0.counts)

  same_event :
      (y : DepartedResource)
      → attempt ≡ remove_resource y.kind y.id
      → (y.kind ≡ x.kind) × (y.id ≡ x.id)
  same_event y e = ground arith

  tried_one :
      (r : Str) (y : DepartedResource) (n : ℕ) (p : Pass) (tr : Removals)
      → Alone r y
      → Grown n (p, tr)
      → Grown n (
        (if fails (remove_resource y.kind y.id ∷ tr)
            then record p {
              failed = p.failed ++ (y.name ∷ []);
              counts = bump (prune_key r y) p.counts;
            }
            else record p {
              removed = p.removed ++ (y.name ∷ []);
              counts = drop_count (prune_key r y) p.counts;
            }),
        remove_resource y.kind y.id ∷ tr,
      )
  tried_one r y n p tr a (g, h) = elim (Bool-cases (seq (prune_key r y) key)) [
    | inl e ↦
        let same = (seq_iff (prune_key r y) key).0 e in
        let it = a.0 same in
        let failed : fails (remove_resource y.kind y.id ∷ tr) ≡ true = rw (it.0, it.1) (stays tr) in
        rw failed (grown same)
    | inr e ↦ elim (Bool-cases (fails (remove_resource y.kind y.id ∷ tr))) [
      | inl f ↦ rw f (unmoved e _ (count_of-bump_other key (prune_key r y) p.counts e))
      | inr f ↦ rw f (unmoved e _ (count_of-drop_other key (prune_key r y) p.counts e))
    ]
  ]
    where
      grown :
          prune_key r y ≡ key
          → (n ≤ count_of key (bump (prune_key r y) p.counts))
            × (In attempt (remove_resource y.kind y.id ∷ tr)
                → suc n ≤ count_of key (bump (prune_key r y) p.counts))
      grown same =
          let up : count_of key (bump (prune_key r y) p.counts) ≡ suc (count_of key p.counts) =
            subst (λ k. count_of key (bump k p.counts) ≡ suc (count_of key p.counts)) (sym same)
              (count_of-bump key p.counts) in
          (ground arith, λ i. ground arith)

      apart : seq (prune_key r y) key ≡ false → ¬ (prune_key r y ≡ key)
      apart e k = ground (arith, seq_iff (prune_key r y) key)

      unmoved :
          seq (prune_key r y) key ≡ false
          → (counts : Counts) → count_of key counts ≡ count_of key p.counts
          → (n ≤ count_of key counts)
            × (In attempt (remove_resource y.kind y.id ∷ tr) → suc n ≤ count_of key counts)
      unmoved e counts q = (
        ground arith,
        λ i. elim i [
          | inl k ↦ absurd (apart e (a.1 (same_event y k)))
          | inr j ↦ let m = h j in ground arith
        ],
      )

  remove_resources-Grown :
      (r : Str) (ys : List DepartedResource) (n : ℕ) (p : Pass) (tr : Removals)
      → ((y : DepartedResource) → In y ys → Alone r y)
      → Grown n (p, tr)
      → Grown n (remove_resources fails r ys p tr)
  unfolding remove_resources
  remove_resources-Grown r [] n p tr a g = g
  remove_resources-Grown r (y ∷ ys) n p tr a g =
      remove_resources-Grown r ys n _ (remove_resource y.kind y.id ∷ tr) (λ z i. a z (inr i))
        (tried_one r y n p tr (a y (inl refl)) g)

  -- No other resource that is to be tried has this one's key, and none is the same object.
  abbrev pub AllAlone : List (Str × DoomedSet) → Type 0
  AllAlone doomed =
      (r : Str) (set : DoomedSet) (y : DepartedResource)
      → In (r, set) doomed
      → In y set.resources
      → Alone r y

  Alone-of :
      (doomed : List (Str × DoomedSet)) (r : Str) (o : Option DoomedSet)
      → AllAlone doomed
      → set_of r doomed ≡ o
      → (y : DepartedResource) → In y (resources_of o)
      → Alone r y
  Alone-of doomed r none a e y i = absurd i
  Alone-of doomed r (some set) a e y i = a r set y (In-set_of [] [] doomed r set doomed e) i

  either-Grown :
      (n : ℕ) (c : Bool) (s t : Pass × Removals)
      → Grown n s
      → Grown n t
      → Grown n (if c then s else t)
  either-Grown n true s t g h = g
  either-Grown n false s t g h = h

  prune_resource_sets-Grown :
      (elsewhere : List Str) (doomed : List (Str × DoomedSet)) (rs : List Str) (n : ℕ)
      (st : Pass × Removals)
      → AllAlone doomed
      → Grown n st
      → Grown n (prune_resource_sets fails elsewhere doomed rs st)
  unfolding prune_resource_sets
  prune_resource_sets-Grown elsewhere doomed [] n st a g = g
  prune_resource_sets-Grown elsewhere doomed (r ∷ rs) n (p, tr) a g =
      prune_resource_sets-Grown elsewhere doomed rs n _ a (
        either-Grown n (elem r elsewhere) _ _ g (
          remove_resources-Grown r (resources_of (set_of r doomed)) n p tr
            (Alone-of doomed r (set_of r doomed) a refl) g))

  prune_resources-Grown :
      (policy can_remove : Bool) (app : Str) (members : List Member) (counts : Counts)
      (doomed : List (Str × DoomedSet))
      → AllAlone doomed
      → Grown
          (count_of key counts)
          (prune_resources fails policy can_remove app members counts doomed [])
  unfolding prune_resources
  prune_resources-Grown policy can_remove app members counts doomed a =
      let start : Grown (count_of key counts) (begun fails counts, []) =
        (ground arith, λ i. absurd i) in
      either-Grown (count_of key counts) (not policy || (is_empty doomed || not can_remove)) _ _
        start
        (prune_resource_sets-Grown (declared_elsewhere app members) doomed
          (sort_names (keys doomed)) (count_of key counts) (begun fails counts, []) a start)

  module _ (parse_owner : Str → Option OwnerRef) (kind_release controller app : Str)
      (read_declared : Revision → Outcome Str Stack) where
    -- What one pass finds: the policy, the members, the views of the releases and their histories.
    pub record Round : Type 0 where
      pub policy : Bool
      pub can_remove : Bool
      pub members : List Member
      pub releases : List Str
      pub views : Str → Option ReleaseView
      pub history : Str → Outcome Str (List Revision)

    abbrev pub swept : Counts → Round → List (Str × DoomedSet) × Counts
    swept counts r =
        departed parse_owner kind_release controller app read_declared r.history counts r.views
          r.releases

    -- A pass, on the failures that are remembered: `departed`, and then `pruneResources`.
    abbrev pub pass : Counts → Round → Pass × Removals
    pass counts r =
        prune_resources fails r.policy r.can_remove app r.members (swept counts r).1
          (swept counts r).0 []

    -- What is remembered after a history of passes, the newest first.
    unfoldable pub after : List Round → Counts
    after [] = []
    after (r ∷ rs) = (pass (after rs) r).0.counts

    -- Each pass found the resource in the release's set, to be tried or only reported.
    abbrev pub AllHeld : List Round → Type 0
    AllHeld [] = Unit
    AllHeld (r ∷ rs) =
        ((set : DoomedSet) × In (release, set) (swept (after rs) r).0 × Holds set x)
        × AllAlone (swept (after rs) r).0
        × AllHeld rs

    -- The number of passes that tried to remove it.
    abbrev pub TriedIn : List Round → ℕ → Type 0
    TriedIn [] n = n ≡ 0
    TriedIn (r ∷ rs) n =
        (In attempt (pass (after rs) r).1 × ((m : ℕ) × (n ≡ suc m) × TriedIn rs m))
        ⊎ ((¬ (In attempt (pass (after rs) r).1)) × TriedIn rs n)

    few_before :
        (counts : Counts) (r : Round)
        → AllAlone (swept counts r).0
        → In attempt (pass counts r).1
        → count_of key counts < 3
    few_before counts r a i =
        let (rel, set, (m, other), (y, j, k, d)) =
          of_All (May app r.members (swept counts r).0) attempt (pass counts r).1
            (later-May app r.members (swept counts r).0 fails r.policy r.can_remove
              (swept counts r).1 [] tt)
            i in
        let (v, e, f, spares) =
          departed-Spares parse_owner kind_release controller app read_declared r.history counts
            r.views r.releases rel set m in
        let few = (spares.1 y j).2 in
        subst (λ z. count_of z counts < 3) ((a rel set y m j).1 (k, d)) few

    tried_bound :
        (rounds : List Round) (n : ℕ)
        → AllHeld rounds
        → TriedIn rounds n
        → (n ≤ 3) × (n ≤ count_of key (after rounds))
    unfolding after
    tried_bound [] n h t = (ground arith, ground arith)
    tried_bound (r ∷ rs) n ((set, m, held), alone, later) t =
        let kept =
          departed-remembers parse_owner kind_release controller app read_declared r.history
            (after rs) r.views r.releases release set x m held in
        let grown =
          prune_resources-Grown r.policy r.can_remove app r.members (swept (after rs) r).1
            (swept (after rs) r).0 alone in
        elim t [
          | inl (i, (k, q, u)) ↦
              let (a, b) = tried_bound rs k later u in
              let few = few_before (after rs) r alone i in
              let more = grown.1 i in (ground arith, ground arith)
          | inr (no_try, u) ↦
              let (a, b) = tried_bound rs n later u in
              let more = grown.0 in (ground arith, ground arith)
        ]

    -- Over any number of passes, each of which finds a resource among what a sweep may delete: if its
    -- removal never succeeds, and its key and its id are no other resource's in these sets, then at
    -- most three of the passes try to remove it.
    pub tried_at_most_three :
        (rounds : List Round) (n : ℕ) → AllHeld rounds → TriedIn rounds n → n ≤ 3
    tried_at_most_three rounds n h t = (tried_bound rounds n h t).0
