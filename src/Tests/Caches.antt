-- ===== src/Tests/Caches.antt =====
-- Sweeps of reclaim/reclaim.go at a concrete disk.
use swarmcli_cd.Base.{◌↔◌, refl, inl, true, none, List, [], ◌∷◌, ◌++◌, Str, str, In, elem, seq}
use swarmcli_cd.Reclaim.{Disk, entries, sweep, sweep_roots, sweep_entries, sweep_entry, sweep_path}
use swarmcli_cd.Reclaim.Grace.{Missing, Goes, Stays, sweep_exact}

-- Each root has the directories of two applications.
abbrev disk : Disk
disk = record {
  Error = Unit;
  path_of = λ root name. root ++ (b'/' ∷ name);
  read_dir = λ root. entries ((str "shop", true) ∷ (str "bank", true) ∷ []);
  remove_all = λ path. none;
}

abbrev roots : List Str
roots = str "git" ∷ []

abbrev bank_only : List Str
bank_only = str "bank" ∷ []

sweep_exact_example :
    (In (str "git/shop") (sweep disk roots bank_only (str "git/shop" ∷ [])).removed ↔ (
      Missing disk bank_only roots (str "git/shop")
      × Goes disk bank_only (str "git/shop" ∷ []) (str "git/shop")))
    × (In (str "git/shop") (sweep disk roots bank_only (str "git/shop" ∷ [])).candidates ↔ (
        Missing disk bank_only roots (str "git/shop")
        × Stays disk bank_only (str "git/shop" ∷ []) (str "git/shop")))
sweep_exact_example = sweep_exact disk bank_only (str "git/shop" ∷ []) roots (str "git/shop")

shop_removed :
    In
      (str "git/shop")
      (sweep disk roots bank_only (sweep disk roots bank_only []).candidates).removed
unfolding sweep sweep_roots sweep_entries sweep_entry sweep_path elem seq
shop_removed = inl refl
