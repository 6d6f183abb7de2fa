-- ===== src/Reconcile/Doomed.antt =====
-- reconcile/reconcile.go, departed and what it calls: what of a release's services, networks, configs
-- and secrets a sweep may delete.
pub mod Claimed
pub mod Departed
pub mod Spared
pub mod Unwanted
pub mod Remembered
use swarmcli_cd.Base.{
  ℕ, ◌+◌, Bool, true, false, not, ◌&&◌, Option, none, some, List, [], ◌∷◌, ◌++◌, map, Str, str, seq,
  elem, is_empty, keep, leb, if◌then◌else◌, Outcome, ok, err,
}
use swarmcli_cd.Prune.Rule.{Release, OwnerRef, owner, sort_names, undeclared, claim}
use swarmcli_cd.Backend.{Stack, Container, Mount, Reference, volume_mount}

-- One release's scoped names, by kind.
pub record ResourceNames : Type 0 where
  pub services : List Str
  pub networks : List Str
  pub configs : List Str
  pub secrets : List Str

abbrev pub no_names : ResourceNames
no_names = record { services = []; networks = []; configs = []; secrets = [] }

unfoldable pub is_no_names : ResourceNames → Bool
is_no_names n =
    is_empty n.services && (is_empty n.networks && (is_empty n.configs && is_empty n.secrets))

unfoldable pub declared_names : Stack → ResourceNames
declared_names stack = record {
  services = map (λ s. s.scoped_name) stack.services;
  networks = map (λ n. n.name) stack.networks;
  configs = map (λ c. c.name) stack.configs;
  secrets = map (λ s. s.name) stack.secrets;
}

-- A stored revision: the record, and what it rendered.
pub record Revision : Type 0 where
  pub release : Release
  pub manifest : Str

-- What is known of the names, of the ones proved and of the ones still to be proved.
pub record Progress : Type 0 where
  pub claimed : ResourceNames
  pub rest : ResourceNames

-- `prune.Claim` of each kind, against what one revision declared.
unfoldable pub claim_names : ResourceNames → Progress → Progress
claim_names declared p =
    let (s, s') = claim p.rest.services declared.services in
    let (n, n') = claim p.rest.networks declared.networks in
    let (c, c') = claim p.rest.configs declared.configs in
    let (x, x') = claim p.rest.secrets declared.secrets in
    record {
      claimed = record {
        services = p.claimed.services ++ s;
        networks = p.claimed.networks ++ n;
        configs = p.claimed.configs ++ c;
        secrets = p.claimed.secrets ++ x;
      };
      rest = record { services = s'; networks = n'; configs = c'; secrets = x' };
    }

unfoldable pub sort_resources : ResourceNames → ResourceNames
sort_resources n = record {
  services = sort_names n.services;
  networks = sort_names n.networks;
  configs = sort_names n.configs;
  secrets = sort_names n.secrets;
}

-- `revisions` from its last index down.
unfoldable pub newest_first : List Revision → List Revision
newest_first [] = []
newest_first (rev ∷ revs) = newest_first revs ++ (rev ∷ [])

-- `parse_owner` and `kind_release` are the chart engine's; `read_declared` converts a stored manifest.
module _ (parse_owner : Str → Option OwnerRef) (kind_release controller app : Str)
    (read_declared : Revision → Outcome Str Stack) where
  -- `app, ok := prune.Owner(rev, r.controller); ok && app == spec.Name`
  abbrev pub is_of_app : Option Str → Bool
  is_of_app none = false
  is_of_app (some a) = seq a app

  -- One round: another application's revision, and one that does not convert, prove nothing.
  abbrev pub claim_revision : Revision → Bool → Outcome Str Stack → Progress → Progress
  claim_revision rev false stack p = p
  claim_revision rev true (err e) p = p
  claim_revision rev true (ok stack) p = claim_names (declared_names stack) p

  -- The revisions, the newest first, until nothing is left to prove.
  unfoldable pub claim_all : List Revision → Progress → Progress
  claim_all [] p = p
  claim_all (rev ∷ older) p =
      let later = claim_all older (
        claim_revision rev (is_of_app (owner parse_owner kind_release rev.release controller))
          (read_declared rev) p) in
      if is_no_names p.rest then p else later

  -- `history` is the engine's answer, the oldest revision first.
  unfoldable pub claimed : Outcome Str (List Revision) → ResourceNames → ResourceNames
  claimed (err e) candidates = no_names
  claimed (ok revisions) candidates =
      sort_resources
        (claim_all (newest_first revisions)
          (record { claimed = no_names; rest = candidates })).claimed
