-- ===== src/Tests/Sets.antt =====
-- Passes of appset/loop.go at a concrete world.
use swarmcli_cd.Base.{
  ℕ, ◌≡◌, ◌≢◌, ◌↔◌, ◌⊎◌, refl, sym, subst, inl, inr, Bool, true, false, not, none, List, [], ◌∷◌,
  Str, str, arith, In, keep, ok, seq, seq_iff, elem, Bool-cases, ◌==◌, ==_iff,
}
use swarmcli_cd.Application.{Spec, Signed, drift_manifest, View, synced}
use swarmcli_cd.AppSet.Diff.{specs, find_spec, diff, diff_desired, diff_running}
use swarmcli_cd.AppSet.Loop.{
  World, Loop, apply, apply_removals, apply_replacements, apply_additions, apply_addition,
  credential, adopt, orphan, without, append_new, once, prune_departed, sweep, confirm_empty,
  record_pruned, record_prune_held, reclaim_departed, record_outcome, unreconciled, declared,
}
use swarmcli_cd.AppSet.Loop.Converge.{IsLawful}
use swarmcli_cd.AppSet.Loop.Reached.{apply_converges}
use swarmcli_cd.AppSet.Loop.Guards.{AllPlanned, reported}
use swarmcli_cd.AppSet.Loop.Confirmed.{Round, begun, history, Settled, LastEmpty, once-pruned}

number_discrete : Discrete ℕ
number_discrete a b = elim (Bool-cases (a == b)) [
  | inl e ↦ yes ((==_iff a b).0 e)
  | inr e ↦ no (λ h. ground (arith, ==_iff a b))
]

Spec-discrete : Discrete Spec
Spec-discrete = hlevel number_discrete

abbrev is_yes : {A : Type 0} → Dec A → Bool
is_yes (yes _) = true
is_yes (no _) = false

is_yes_iff : {A : Type 0} (d : Dec A) → (is_yes d ≡ true) ↔ A
is_yes_iff (yes a) = (λ _. a, λ _. refl)
is_yes_iff (no n) = (λ e. ground arith, λ a. absurd (n a))

abbrev view_of : Spec → View
view_of x = record { spec = x; sync = synced; releases = x.name ∷ [] }

abbrev views_of : List Spec → List View
views_of [] = []
views_of (x ∷ xs) = view_of x ∷ views_of xs

abbrev less : Str → List Spec → List Spec
less n = keep (λ (x : Spec). not (seq x.name n))

-- A reconciler that is the list of its specs, and a pruner that finds one departed application.
abbrev world : World
world = record {
  State = List Spec;
  Error = Unit;
  Resolver = Unit;
  views = views_of;
  remove = λ n s. (none, less n s);
  replace = λ x s. (none, x ∷ less x.name s);
  add = λ x s. (none, x ∷ s);
  set_registry_auth = λ n r s. s;
  draining = λ s. ([], s);
  credentials = λ x. ok tt;
  has_pruner = true;
  departing = λ desired declared s. (ok (str "old" ∷ []), s);
  departed = λ desired declared s. ((str "old" ∷ [], none), s);
  has_reclaimer = false;
  reclaim = λ names s. (none, s);
  is_cancelled = λ _. false;
  deep_equal = λ a b. is_yes (Spec-discrete a b);
}

specs-views_of : (xs : List Spec) (t : Spec) → In t (specs (views_of xs)) ↔ In t xs
specs-views_of [] t = ground arith
specs-views_of (x ∷ xs) t = ground (arith, specs-views_of xs t)

In-less : (n : Str) (xs : List Spec) (t : Spec) → In t (less n xs) ↔ (In t xs × (t.name ≢ n))
In-less n [] t = ground arith
In-less n (x ∷ xs) t =
    let ih = In-less n xs t in
    elim (Bool-cases (seq x.name n)) [
      | inl e ↦ rw (e) (
        λ i. (inr (ih.0 i).0, (ih.0 i).1),
        λ (j, ne). elim j [
          | inl q ↦ absurd (ne (subst (λ (y : Spec). y.name ≡ n) (sym q) ((seq_iff x.name n).0 e)))
          | inr k ↦ ih.1 (k, ne)
        ],
      )
      | inr e ↦
          let ne : x.name ≢ n = λ h. ground (arith, seq_iff x.name n) in
          rw (e) (
            λ i. elim i [
              | inl q ↦ (inl q, subst (λ (y : Spec). y.name ≢ n) (sym q) ne)
              | inr k ↦ (inr (ih.0 k).0, (ih.0 k).1)
            ],
            λ (j, m). elim j [ inl q ↦ inl q | inr k ↦ inr (ih.1 (k, m)) ],
          )
    ]

world-IsLawful : IsLawful world
world-IsLawful = record {
  removed =
      λ n s t e. ground (arith, specs-views_of (less n s) t, specs-views_of s t, In-less n s t);
  replaced = λ x s t e.
      ground (arith, specs-views_of (less x.name s) t, specs-views_of s t, In-less x.name s t);
  added = λ x s t e. ground (arith, specs-views_of s t);
  authorised = λ n r s. refl;
  equal = λ a b. is_yes_iff (Spec-discrete a b);
}

abbrev unset : Signed
unset = record { is_negative = false; magnitude = 0 }

abbrev named : Str → Spec
named n = record {
  name = n;
  source = record {
    repo_url = str "https://example.org/shop.git";
    revision = str "main";
    release_file = str "releases.yaml";
    chart = none;
  };
  registry_auth = [];
  self = false;
  allow = record { host_paths = []; secrets = []; configs = []; volumes = []; networks = [] };
  swarm = [];
  sync_policy = record {
    automated = true;
    interval = unset;
    waits = false;
    timeout = unset;
    history_max = none;
    prune = false;
    prune_volumes = false;
    prune_resources = false;
    prune_first = false;
  };
  drift_detection = drift_manifest;
}

abbrev loop : Loop world
loop = record {
  world = named (str "old") ∷ [];
  last_err = [];
  stale = false;
  orphaned = [];
  pruned = [];
  prune_held_by = [];
  empty_before = false;
}

abbrev desired : List Spec
desired = named (str "new") ∷ []

no_errors : (apply world desired loop).0 ≡ []
unfolding apply diff diff_desired diff_running find_spec apply_removals apply_replacements
    apply_additions apply_addition credential adopt orphan without append_new seq elem
no_errors = refl

apply_converges_example :
    In (named (str "new")) (specs (views_of (apply world desired loop).1.world))
    ↔ In (named (str "new")) desired
apply_converges_example =
    apply_converges world desired loop world-IsLawful ((λ i. i), tt) ((λ i. i), tt) no_errors
      (named (str "new"))

-- A pass that loads an empty set.
abbrev empty_round : Round world
empty_round = record { world = loop.world; loaded = ok []; has_current = true }

old_pruned : In (str "old") (history world loop.world (empty_round ∷ (empty_round ∷ []))).pruned
unfolding history once prune_departed sweep confirm_empty record_pruned record_prune_held
    reclaim_departed record_outcome unreconciled declared apply diff diff_desired diff_running
    find_spec apply_removals apply_replacements apply_additions apply_addition credential adopt
    orphan without append_new seq elem
old_pruned = inl refl

once-pruned_example :
    In (str "old") (history world loop.world (empty_round ∷ [])).pruned
    ⊎ ((ds : List Spec) × Settled world empty_round (history world loop.world (empty_round ∷ [])) ds
        × (world.has_pruner ≡ true)
        × AllPlanned (
            world.views
              (apply world ds
                (begun world empty_round (history world loop.world (empty_round ∷ [])))).1.world)
        × ((world.draining
              (apply world ds
                (begun world empty_round (history world loop.world (empty_round ∷ [])))).1.world).0
            ≡ [])
        × ((ds ≢ []) ⊎ LastEmpty world loop.world (empty_round ∷ []))
        × In (str "old") (
            reported world ds
              (apply world ds
                (begun world empty_round (history world loop.world (empty_round ∷ [])))).1))
once-pruned_example =
    once-pruned world loop.world (empty_round ∷ []) empty_round (str "old") old_pruned
