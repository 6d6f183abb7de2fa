-- ===== src/Reconcile/Pruned.antt =====
-- reconcile/reconcile.go, pruneServices, pruneResources and declaredElsewhere: what a sweep deletes of
-- the sets that it found. The backend is not modelled: each removal is an event, and its answer is any
-- function of the events so far.

pub mod Allowed
pub mod Tried
use swarmcli_cd.Base.{
  ℕ, suc, Bool, true, false, not, ◌||◌, Option, none, some, List, [], ◌∷◌, ◌++◌, Str, seq, elem,
  is_empty, keep, if◌then◌else◌,
}
use swarmcli_cd.Prune.Rule.{sort_names}
use swarmcli_cd.Reconcile.Doomed.Claimed.{Kind}
use swarmcli_cd.Reconcile.Doomed.Departed.{
  DepartedService, DepartedResource, DoomedSet, Counts, count_of, prune_key, keys,
}

-- What `declaredElsewhere` reads of an application: its name, the release that its chart source
-- names, and those that it reports.
pub record Member : Type 0 where
  pub name : Str
  pub chart_release : Option Str
  pub reported : List Str

abbrev named_release : Option Str → List Str
named_release none = []
named_release (some r) = if is_empty r then [] else r ∷ []

-- The releases that an application other than `app` declares.
unfoldable pub declared_elsewhere : Str → List Member → List Str
declared_elsewhere app [] = []
declared_elsewhere app (m ∷ ms) =
    let rest = declared_elsewhere app ms in
    if seq m.name app then rest else named_release m.chart_release ++ (m.reported ++ rest)

pub data Removal : Type 0 where
  remove_service : Str → Removal
  remove_resource : Kind → Str → Removal

-- The newest event first.
abbrev pub Removals : Type 0
Removals = List Removal

-- What a sweep reports: the failures and what went, by name, and the counts of failures.
pub record Pass : Type 0 where
  pub failed : List Str
  pub removed : List Str
  pub counts : Counts

-- `counts[key]++`, and `delete(counts, key)`.
unfoldable pub bump : Str → Counts → Counts
bump key [] = (key, 1) ∷ []
bump key (kv ∷ rest) =
    let later = bump key rest in if seq kv.0 key then (key, suc kv.1) ∷ rest else kv ∷ later

unfoldable pub drop_count : Str → Counts → Counts
drop_count key counts = keep (λ kv. not (seq kv.0 key)) counts

-- `doomed[release]`
unfoldable pub set_of : Str → List (Str × DoomedSet) → Option DoomedSet
set_of release [] = none
set_of release (kv ∷ rest) =
    let later = set_of release rest in if seq kv.0 release then some kv.1 else later

abbrev pub services_of : Option DoomedSet → List DepartedService
services_of none = []
services_of (some set) = set.services

abbrev pub resources_of : Option DoomedSet → List DepartedResource
resources_of none = []
resources_of (some set) = set.resources

-- `fails` answers the event at the head of the trace.
module _ (fails : Removals → Bool) where
  -- The loop over one release's services.
  unfoldable pub remove_services : List DepartedService → Pass → Removals → Pass × Removals
  remove_services [] p tr = (p, tr)
  remove_services (s ∷ ss) p tr =
      remove_services ss
        (if fails (remove_service s.id ∷ tr)
          then record p { failed = p.failed ++ (s.name ∷ []) }
          else record p { removed = p.removed ++ (s.name ∷ []) })
        (remove_service s.id ∷ tr)

  -- The loop over one release's resources.
  unfoldable pub remove_resources : Str → List DepartedResource → Pass → Removals → Pass × Removals
  remove_resources release [] p tr = (p, tr)
  remove_resources release (x ∷ xs) p tr =
      remove_resources release xs
        (if fails (remove_resource x.kind x.id ∷ tr)
          then record p {
            failed = p.failed ++ (x.name ∷ []);
            counts = bump (prune_key release x) p.counts;
          }
          else record p {
            removed = p.removed ++ (x.name ∷ []);
            counts = drop_count (prune_key release x) p.counts;
          })
        (remove_resource x.kind x.id ∷ tr)

  module _ (elsewhere : List Str) (doomed : List (Str × DoomedSet)) where
    -- The loops over the releases, in the order of their names.
    abbrev pub prune_services_of : Str → Pass × Removals → Pass × Removals
    prune_services_of release (p, tr) =
        if elem release elsewhere
        then (p, tr)
        else remove_services (services_of (set_of release doomed)) p tr

    abbrev pub prune_resources_of : Str → Pass × Removals → Pass × Removals
    prune_resources_of release (p, tr) =
        if elem release elsewhere
        then (p, tr)
        else remove_resources release (resources_of (set_of release doomed)) p tr

    unfoldable pub prune_service_sets : List Str → Pass × Removals → Pass × Removals
    prune_service_sets [] st = st
    prune_service_sets (release ∷ rest) st = prune_service_sets rest (prune_services_of release st)

    unfoldable pub prune_resource_sets : List Str → Pass × Removals → Pass × Removals
    prune_resource_sets [] st = st
    prune_resource_sets (release ∷ rest) st =
        prune_resource_sets rest (prune_resources_of release st)

  abbrev pub begun : Counts → Pass
  begun counts = record { failed = []; removed = []; counts = counts }

  -- `can_remove` says whether the backend removes single resources.
  unfoldable pub prune_services :
      Bool → Bool → Str → List Member → List (Str × DoomedSet) → Removals → Pass × Removals
  prune_services policy can_remove app members doomed tr =
      if not policy || (is_empty doomed || not can_remove)
      then (begun [], tr)
      else prune_service_sets (declared_elsewhere app members) doomed (sort_names (keys doomed))
          (begun [], tr)

  unfoldable pub prune_resources :
      Bool → Bool → Str → List Member → Counts → List (Str × DoomedSet) → Removals → Pass × Removals
  prune_resources policy can_remove app members counts doomed tr =
      if not policy || (is_empty doomed || not can_remove)
      then (begun counts, tr)
      else prune_resource_sets (declared_elsewhere app members) doomed (sort_names (keys doomed))
          (begun counts, tr)
