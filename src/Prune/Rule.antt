-- ===== src/Prune/Rule.antt =====
-- prune/prune.go, the rules that decide what may go: Owner, departed, Undeclared and Claim.
use swarmcli_cd.Base.{
  Option, none, some, List, [], ◌∷◌, ◌++◌, Str, seq, elem, is_empty, compare_str, if◌then◌else◌,
}
use swarmcli_cd.Owner.{app_from_owner_id}

-- What the sweep reads of a `charts.Release`.
pub record Release : Type 0 where
  pub name : Str
  pub owner : Str

-- What `charts.ParseOwner` reads out of a stamp.
pub record OwnerRef : Type 0 where
  pub kind : Str
  pub name : Str
  pub id : Str

-- One application's releases, as the swarm still holds them.
pub record DepartedApp : Type 0 where
  pub name : Str
  pub releases : List Str

-- `out[i].releases = append(…)` at the group that `at` holds for the application, or a new group at
-- the end. `at` maps each group's name to its place, so the group is found by its name.
unfoldable pub add_release : Str → Str → List DepartedApp → List DepartedApp
add_release app rel [] = record { name = app; releases = rel ∷ [] } ∷ []
add_release app rel (g ∷ gs) =
    let rest = add_release app rel gs in
    if seq g.name app then record g { releases = g.releases ++ (rel ∷ []) } ∷ gs else g ∷ rest

-- The chart engine is not part of the program: `parse_owner` is `charts.ParseOwner`, whose error is
-- `none`, and `kind_release` is `charts.OwnerKindRelease`.
module _ (parse_owner : Str → Option OwnerRef) (kind_release : Str) where
  -- Both halves of the stamp have to agree with the release that carries it.
  abbrev owner_of_ref : Str → Str → Option OwnerRef → Option Str
  owner_of_ref controller rel none = none
  owner_of_ref controller rel (some ref) =
      if seq ref.kind kind_release
      then (if seq ref.name rel then app_from_owner_id controller ref.id else none)
      else none

  unfoldable pub owner : Release → Str → Option Str
  owner rel controller = owner_of_ref controller rel.name (parse_owner rel.owner)

  module _ (desired declared : List Str) (controller : Str) where
    -- One round of the loop: its three `continue`s, then the grouping.
    abbrev pub departed_step : List DepartedApp → Str → Option Str → List DepartedApp
    departed_step out rel none = out
    departed_step out rel (some app) =
        if elem app desired then out else if elem rel declared then out else add_release app rel out

    unfoldable pub departed_from : List DepartedApp → List Release → List DepartedApp
    departed_from out [] = out
    departed_from out (rel ∷ rels) =
        departed_from (departed_step out rel.name (owner rel controller)) rels

    unfoldable pub departed : List Release → List DepartedApp
    unfolding departed_from
    departed rels = departed_from [] rels

-- `slices.Sort` on strings: insertion, in the order of the code points.
unfoldable pub insert_sorted : Str → List Str → List Str
insert_sorted x [] = x ∷ []
insert_sorted x (y ∷ ys) =
    let rest = insert_sorted x ys in if compare_str x y then x ∷ y ∷ ys else y ∷ rest

unfoldable pub sort_names : List Str → List Str
unfolding insert_sorted
sort_names [] = []
sort_names (x ∷ xs) = insert_sorted x (sort_names xs)

-- The loop of `Undeclared`.
unfoldable pub not_in : List Str → List Str → List Str
not_in declared [] = []
not_in declared (x ∷ xs) =
    let rest = not_in declared xs in if elem x declared then rest else x ∷ rest

unfoldable pub undeclared : List Str → List Str → List Str
unfolding not_in sort_names
undeclared running declared = if is_empty running then [] else sort_names (not_in declared running)

-- `Claim`: what this revision proves, and what is still unaccounted for.
unfoldable pub claim : List Str → List Str → List Str × List Str
claim [] declared = ([], [])
claim (x ∷ xs) declared =
    let (claimed, rest) = claim xs declared in
    if elem x declared then (x ∷ claimed, rest) else (claimed, x ∷ rest)
