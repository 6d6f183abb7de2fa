-- ===== src/AppSet/Diff.antt =====
-- appset/loop.go, diff: what has to happen for the running set to become the desired one.
pub mod Exact
use swarmcli_cd.Base.{Bool, Option, none, some, List, [], ◌∷◌, Str, seq, elem, if◌then◌else◌}
use swarmcli_cd.Application.{Spec, View}

abbrev pub spec_names : List Spec → List Str
spec_names [] = []
spec_names (s ∷ ss) = s.name ∷ spec_names ss

abbrev pub specs : List View → List Spec
specs [] = []
specs (v ∷ vs) = v.spec ∷ specs vs

-- `current[name]`, the map that the loop over the running views fills: a later view wins.
unfoldable pub find_spec : Str → List Spec → Option Spec
find_spec name [] = none
find_spec name (s ∷ ss) =
    let later = find_spec name ss in
    let this : Option Spec = if seq s.name name then some s else none in
    elim later [ some t ↦ some t | none ↦ this ]

-- `deep_equal` is `reflect.DeepEqual`, which is not modelled: on specs of one parser it is equality.
module _ (deep_equal : Spec → Spec → Bool) where
  -- The loop over the desired specs: those to add and those to replace.
  unfoldable pub diff_desired : List Spec → List Spec → List Spec × List Spec
  diff_desired running [] = ([], [])
  diff_desired running (spec ∷ rest) =
      let (add, replace) = diff_desired running rest in
      elim (find_spec spec.name running) [
        | none ↦ (spec ∷ add, replace)
        | some was ↦ if deep_equal was spec then (add, replace) else (add, spec ∷ replace)
      ]

-- The loop over the running views: the names that nobody wants.
unfoldable pub diff_running : List Spec → List Str → List Str
diff_running [] wanted = []
diff_running (s ∷ ss) wanted =
    let rest = diff_running ss wanted in if elem s.name wanted then rest else s.name ∷ rest

pub record Changes : Type 0 where
  pub add : List Spec
  pub replace : List Spec
  pub remove : List Str

unfoldable pub diff : (Spec → Spec → Bool) → List View → List Spec → Changes
unfolding diff_desired diff_running
diff deep_equal running desired =
    let (add, replace) = diff_desired deep_equal (specs running) desired in
    record {
      add = add;
      replace = replace;
      remove = diff_running (specs running) (spec_names desired);
    }
