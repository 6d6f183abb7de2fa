-- ===== src/Reclaim/Grace.antt =====
-- What a sweep of reclaim/reclaim.go removes, what it remembers, and so its grace period.
use swarmcli_cd.Base.{
  ◌≡◌, ◌↔◌, ◌⊎◌, inl, inr, refl, Bool, true, none, some, List, [], ◌∷◌, Str, arith, Option-cases,
  ◌++◌, In, elem_iff,
}
use swarmcli_cd.Reclaim.{
  Disk, Listing, not_exist, failed, entries, Progress, SweepError, sweep_path, sweep_entry,
  sweep_entries, sweep_roots, start, sweep,
}

Listing-cases :
    {E : Type 0} (l : Listing E)
    → (l ≡ not_exist) ⊎ ((e : E) × (l ≡ failed e)) ⊎ ((es : List (Str × Bool)) × (l ≡ entries es))
Listing-cases not_exist = inl refl
Listing-cases (failed e) = inr (inl (e, refl))
Listing-cases (entries es) = inr (inr (es, refl))

module _ (disk : Disk) (wanted : List Str) where
  -- A directory among the entries of a root, of that path, whose name is not wanted.
  abbrev pub MissingHere : Str → List (Str × Bool) → Str → Type 0
  MissingHere root [] path = ⊥
  MissingHere root ((name, is_dir) ∷ es) path =
      ((is_dir ≡ true) × (¬ (In name wanted)) × (path ≡ disk.path_of root name))
      ⊎ MissingHere root es path

  -- The same, under one of the roots that can be listed.
  abbrev pub Missing : List Str → Str → Type 0
  Missing [] path = ⊥
  Missing (root ∷ roots) path =
      ((es : List (Str × Bool)) × (disk.read_dir root ≡ entries es) × MissingHere root es path)
      ⊎ Missing roots path

  module _ (absent : List Str) where
    -- A path that the sweep before noted, and that the file system lets go.
    abbrev pub Goes : Str → Type 0
    Goes path = In path absent × (disk.remove_all path ≡ none)

    -- A path that is new to the sweep, or one that would not go.
    abbrev pub Stays : Str → Type 0
    Stays path = (¬ (In path absent)) ⊎ ((e : disk.Error) × (disk.remove_all path ≡ some e))

    -- From `p` to `q`, the paths with `P` were met.
    abbrev Met : (Str → Type 0) → Progress disk → Progress disk → Type 0
    Met P p q =
        (path : Str)
        → (In path q.removed ↔ (In path p.removed ⊎ (P path × Goes path)))
          × (In path q.candidates ↔ (In path p.candidates ⊎ (P path × Stays path)))

    sweep_path-Met :
        (x : Str) (p : Progress disk) → Met (λ path. path ≡ x) p (sweep_path disk absent x p)
    unfolding sweep_path
    sweep_path-Met x p path = ground (arith, elem_iff x absent, Option-cases (disk.remove_all x))

    sweep_entries-Met :
        (root : Str) (es : List (Str × Bool)) (p : Progress disk)
        → Met (MissingHere root es) p (sweep_entries disk wanted absent root es p)
    unfolding sweep_entries sweep_entry
    sweep_entries-Met root [] p path = ground arith
    sweep_entries-Met root ((name, is_dir) ∷ es) p path =
        let q = sweep_entry disk wanted absent root name is_dir p in
        ground (
          arith,
          elem_iff name wanted,
          sweep_path-Met (disk.path_of root name) p path,
          sweep_entries-Met root es q path,
        )

    sweep_roots-Met :
        (roots : List Str) (p : Progress disk)
        → Met (Missing roots) p (sweep_roots disk wanted absent roots p)
    unfolding sweep_roots
    sweep_roots-Met [] p path = ground arith
    sweep_roots-Met (root ∷ roots) p path = elim (Listing-cases (disk.read_dir root)) [
      | inl e ↦ ground (arith, sweep_roots-Met roots p path)
      | inr (inl (x, e)) ↦
          let q : Progress disk = record p { errs = p.errs ++ (SweepError.reading root x ∷ []) } in
          ground (arith, sweep_roots-Met roots q path)
      | inr (inr (es, e)) ↦
          let q = sweep_entries disk wanted absent root es p in
          let m = sweep_entries-Met root es p path in
          ground (arith, m, sweep_roots-Met roots q path)
    ]

    -- A sweep removes exactly the directories that miss from the wanted names, that the sweep before
    -- noted and that the file system lets go; it notes exactly those that miss and are new to it or
    -- would not go.
    pub sweep_exact :
        (roots : List Str) (path : Str)
        → (In path (sweep disk roots wanted absent).removed ↔ (Missing roots path × Goes path))
          × (In path (sweep disk roots wanted absent).candidates
              ↔ (Missing roots path × Stays path))
    unfolding sweep
    sweep_exact roots path = ground (arith, sweep_roots-Met roots (start disk) path)

-- Of two sweeps, the first with any memory: what the second one removes was missing from the wanted
-- names of both, and at the first one it was new or would not go.
pub two_sweeps :
    (before after : Disk) (roots wanted1 wanted2 absent : List Str) (path : Str)
    → In path (sweep after roots wanted2 (sweep before roots wanted1 absent).candidates).removed
    → Missing before wanted1 roots path
      × Missing after wanted2 roots path
      × Stays before wanted1 absent path
two_sweeps before after roots wanted1 wanted2 absent path i =
    let (m, g) =
      (sweep_exact after wanted2 (sweep before roots wanted1 absent).candidates roots path).0.0 i in
    let (n, s) = (sweep_exact before wanted1 absent roots path).1.0 g.0 in (n, m, s)
