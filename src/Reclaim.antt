-- ===== src/Reclaim.antt =====
-- reclaim/reclaim.go: the sweep of the caches that departed applications leave on disk.
pub mod Grace
use swarmcli_cd.Base.{
  Bool, true, false, not, Option, none, some, List, [], ◌∷◌, ◌++◌, Str, elem, if◌then◌else◌,
}

-- What `os.ReadDir` answers for a root: each entry with whether it is a directory.
pub data Listing (Error : Type 0) : Type 0 where
  not_exist : Listing Error
  failed : Error → Listing Error
  entries : List (Str × Bool) → Listing Error

-- The file system is not part of the program: how `filepath.Join` names an entry of a root, what a
-- root lists, and the error that `os.RemoveAll` ends with.
pub record Disk : Type 1 where
  pub Error : Type 0
  pub path_of : Str → Str → Str
  pub read_dir : Str → Listing Error
  pub remove_all : Str → Option Error

module _ (disk : Disk) where
  open disk use {Error, path_of, read_dir, remove_all}

  -- The two wrappers of the code.
  pub data SweepError : Type 0 where
    reading reclaiming : Str → Error → SweepError

  -- The loop's variables, with the paths that were removed.
  pub record Progress : Type 0 where
    pub candidates : List Str
    pub removed : List Str
    pub errs : List SweepError

  -- An entry that passed the two tests on its kind and its name.
  unfoldable pub sweep_path : List Str → Str → Progress → Progress
  sweep_path absent path p =
      if not (elem path absent)
      then record p { candidates = path ∷ p.candidates }
      else elim (remove_all path) [
        | some e ↦ record p {
          errs = p.errs ++ (reclaiming path e ∷ []);
          candidates = path ∷ p.candidates;
        }
        | none ↦ record p { removed = path ∷ p.removed }
      ]

  unfoldable pub sweep_entry : List Str → List Str → Str → Str → Bool → Progress → Progress
  sweep_entry wanted absent root name is_dir p =
      if not is_dir
      then p
      else if elem name wanted
      then p
      else sweep_path absent (path_of root name) p

  unfoldable pub sweep_entries : List Str → List Str → Str → List (Str × Bool) → Progress → Progress
  sweep_entries wanted absent root [] p = p
  sweep_entries wanted absent root ((name, is_dir) ∷ es) p =
      sweep_entries wanted absent root es (sweep_entry wanted absent root name is_dir p)

  unfoldable pub sweep_roots : List Str → List Str → List Str → Progress → Progress
  sweep_roots wanted absent [] p = p
  sweep_roots wanted absent (root ∷ roots) p =
      sweep_roots wanted absent roots (elim (read_dir root) [
        | not_exist ↦ p
        | failed e ↦ record p { errs = p.errs ++ (reading root e ∷ []) }
        | entries es ↦ sweep_entries wanted absent root es p
      ])

  abbrev pub start : Progress
  start = record { candidates = []; removed = []; errs = [] }

  -- One sweep: its candidates are the next sweep's `absent`.
  unfoldable pub sweep : List Str → List Str → List Str → Progress
  sweep roots keep absent = sweep_roots keep absent roots start
