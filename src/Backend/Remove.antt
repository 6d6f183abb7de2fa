-- ===== src/Backend/Remove.antt =====
-- backend/backend.go, RemoveStack and stackRemains. The daemon is not modelled: each call is an event,
-- and its answer is any function of the events so far, the call itself at the head.

pub mod Settled
use swarmcli_cd.Base.{
  Bool, true, false, not, Option, none, some, List, [], ◌∷◌, ◌++◌, Str, is_empty, keep,
  if◌then◌else◌, Outcome, ok, err,
}
use swarmcli_cd.Backend.{Labels, SelfMounts}
use swarmcli_cd.Backend.Records.{Platform, may_be_release_record}
use swarmcli_cd.Backend.Self.{SelfError, reject_own_namespace}

pub data Sort : Type 0 where
  services configs secrets networks : Sort

-- What the daemon lists of one thing.
pub record Held : Type 0 where
  pub id : Str
  pub labels : Labels

-- A filter: a label, and the value that it has to have.
pub record Filter : Type 0 where
  pub label : Str
  pub value : Str

-- backend/resource.go, stackFilter.
abbrev pub stack_filter : Platform → Str → Filter
stack_filter pf name = record { label = pf.label_namespace; value = name }

pub data Call : Type 0 where
  listing : Sort → Filter → Call
  removing : Sort → Str → Call

abbrev pub Calls : Type 0
Calls = List Call

pub data Removed : Type 0 where
  gone not_found : Removed
  failed : Str → Removed

pub record Replies : Type 0 where
  pub list : Calls → Outcome Str (List Held)
  pub remove : Calls → Removed

pub data RemoveError : Type 0 where
  no_name : RemoveError
  own : SelfError → RemoveError
  unlisted unchecked : Str → RemoveError
  unremoved : Str → RemoveError

-- In the order in which they are removed, and looked for again.
abbrev pub sorts : List Sort
sorts = services ∷ (configs ∷ (secrets ∷ (networks ∷ [])))

module _ (pf : Platform) (w : Replies) where
  -- A config typed as a release record stays.
  abbrev pub is_spared : Sort → Labels → Bool
  is_spared configs labels = may_be_release_record pf labels
  is_spared _ labels = false

  abbrev pub doomed : Sort → List Held → List Held
  doomed sort = keep (λ h. not (is_spared sort h.labels))

  abbrev pub noted : List RemoveError → Removed → List RemoveError
  noted errs gone = errs
  noted errs not_found = errs
  noted errs (failed e) = errs ++ (unremoved e ∷ [])

  -- The loop over one listing, which goes on after a failure.
  unfoldable pub remove_items :
      Sort → List Held → List RemoveError → Calls → List RemoveError × Calls
  remove_items sort [] errs tr = (errs, tr)
  remove_items sort (h ∷ hs) errs tr =
      remove_items sort hs (noted errs (w.remove (removing sort h.id ∷ tr)))
        (removing sort h.id ∷ tr)

  -- A listing that fails ends the removal with its own error.
  abbrev pub after_listing :
      Sort
      → List RemoveError
      → (List RemoveError → Calls → Outcome Str (List RemoveError) × Calls)
      → Outcome Str (List Held)
      → Calls
      → Outcome Str (List RemoveError) × Calls
  after_listing sort errs next (err e) tr = (err e, tr)
  after_listing sort errs next (ok items) tr =
      let (errs', tr') = remove_items sort (doomed sort items) errs tr in next errs' tr'

  unfoldable pub remove_sorts :
      Str → List Sort → List RemoveError → Calls → Outcome Str (List RemoveError) × Calls
  remove_sorts name [] errs tr = (ok errs, tr)
  remove_sorts name (sort ∷ rest) errs tr =
      after_listing sort errs (remove_sorts name rest)
        (w.list (listing sort (stack_filter pf name) ∷ tr))
        (listing sort (stack_filter pf name) ∷ tr)

  abbrev pub remains_listed :
      Sort → Outcome Str Bool × Calls → Outcome Str (List Held) → Calls → Outcome Str Bool × Calls
  remains_listed sort later (err e) tr = (err e, tr)
  remains_listed sort later (ok items) tr =
      if is_empty (doomed sort items) then later else (ok true, tr)

  unfoldable pub stack_remains : Str → List Sort → Calls → Outcome Str Bool × Calls
  stack_remains name [] tr = (ok false, tr)
  stack_remains name (sort ∷ rest) tr =
      remains_listed sort (stack_remains name rest (listing sort (stack_filter pf name) ∷ tr))
        (w.list (listing sort (stack_filter pf name) ∷ tr))
        (listing sort (stack_filter pf name) ∷ tr)

  -- What becomes of the failures, once it is known whether anything is left.
  abbrev pub after_check : List RemoveError → Outcome Str Bool × Calls → List RemoveError × Calls
  after_check errs (err e, tr) = (errs ++ (unchecked e ∷ []), tr)
  after_check errs (ok false, tr) = ([], tr)
  after_check errs (ok true, tr) = (errs, tr)

  abbrev pub after_removal : Str → Outcome Str (List RemoveError) × Calls → List RemoveError × Calls
  after_removal name (err e, tr) = (unlisted e ∷ [], tr)
  after_removal name (ok [], tr) = ([], tr)
  after_removal name (ok (e ∷ es), tr) = after_check (e ∷ es) (stack_remains name sorts tr)

  -- The errors that are joined, none for success.
  unfoldable pub remove_stack : Outcome Str SelfMounts → Str → Calls → List RemoveError × Calls
  remove_stack mounts name tr =
      if is_empty name then (no_name ∷ [], tr) else elim (reject_own_namespace mounts name) [
        | some e ↦ (own e ∷ [], tr)
        | none ↦ after_removal name (remove_sorts name sorts [] tr)
      ]
