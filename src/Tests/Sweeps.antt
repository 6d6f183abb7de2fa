-- ===== src/Tests/Sweeps.antt =====
-- Sweeps of prune/prune.go at a concrete swarm.
use swarmcli_cd.Base.{
  ◌*◌, ◌≡◌, ◌≢◌, ◌↔◌, ◌⊎◌, true, false, Option, none, some, List, [], ◌∷◌, Str, str, arith, ok, In,
  length,
}
use swarmcli_cd.Prune.Rule.{Release, OwnerRef, DepartedApp, departed}
use swarmcli_cd.Prune.Departing.{Holds, Obsolete, departed_iff}
use swarmcli_cd.Prune.Calls.{own, own_stack, out_of_rounds, Swarm}
use swarmcli_cd.Prune.Volumes.{failed, remove_one, volume_settle_interval}
use swarmcli_cd.Prune.Volumes.Settle.{IsTimed, remove_one_ends}
use swarmcli_cd.Prune.Sweep.{departed_sweep, sweep_app, uninstall_all, emptied}
use swarmcli_cd.Prune.Sweep.Safety.{IsSafe}
use swarmcli_cd.Prune.Sweep.Whole.{MayGo, departed_sweep-IsSafe}
use swarmcli_cd.Prune.Sweep.Emptied.{
  outcomes, failures, own_stacks, Relisted, sweep_app_emptied_iff,
}

abbrev web : Release
web = record { name = str "web"; owner = str "cd/prod/shop" }

abbrev db : Release
db = record { name = str "db"; owner = str "cd/prod/bank" }

-- A stamp that is of the release `web` and holds the owner's id as it is.
abbrev read_stamp : Str → Option OwnerRef
read_stamp s = some (record { kind = str "release"; name = str "web"; id = s })

-- The clock shows the interval of a wait for each event.
abbrev swarm : Swarm
swarm = record {
  fails = λ _. none;
  releases = λ _. ok (web ∷ db ∷ []);
  volumes = λ _. ok (str "web_data" ∷ str "db_data" ∷ []);
  nodes = λ _. ok [];
  size = λ _. some 1;
  uninstalled = λ _. ok [];
  has_node_reach = false;
  has_stack_remover = λ _. false;
  now = λ tr. length tr * volume_settle_interval;
  is_cancelled = λ _. false;
  is_interrupted = λ _. false;
  context_error = own_stack;
}

swarm-IsTimed : IsTimed swarm
swarm-IsTimed = record {
  forward = λ e tr. omega arith;
  waited = λ tr h. omega arith;
  answers = λ tr e. ground arith;
  context = λ e. ground arith;
}

departed_sweep-IsSafe_example :
    IsSafe swarm
      (MayGo swarm true read_stamp (str "release") (str "bank" ∷ []) [] (str "prod"))
      (departed_sweep swarm true read_stamp (str "release") (str "bank" ∷ []) [] (str "prod") []).1
departed_sweep-IsSafe_example =
    departed_sweep-IsSafe swarm true read_stamp (str "release") (str "bank" ∷ []) [] (str "prod")

departed_iff_example :
    Holds
      (str "shop")
      (str "web")
      (departed read_stamp (str "release") (str "bank" ∷ []) [] (str "prod") (web ∷ db ∷ []))
    ↔ ((rel : Release) × In rel (web ∷ db ∷ [])
        × (rel.name ≡ str "web")
        × Obsolete read_stamp (str "release") (str "bank" ∷ []) [] (str "prod") (str "shop") rel)
departed_iff_example =
    departed_iff read_stamp (str "release") (str "bank" ∷ []) [] (str "prod") (str "shop")
      (str "web") (web ∷ db ∷ [])

abbrev shop : DepartedApp
shop = record { name = str "shop"; releases = str "web" ∷ [] }

sweep_app_emptied_iff_example :
    let os = outcomes swarm true (str "shop") (str "web" ∷ []) [] in
    let tr1 = (uninstall_all swarm true (str "shop") (str "web" ∷ []) [] 0 []).1 in
    ((sweep_app swarm true shop []).0 ≡ emptied) ↔ (
      ((failures os ≡ []) × (own_stacks os ≡ 0))
      ⊎ ((failures os ≢ []) × Relisted swarm true (failures os) tr1))
sweep_app_emptied_iff_example = sweep_app_emptied_iff swarm true shop []

remove_one_ends_example :
    (remove_one swarm own (str "web") (str "web_data") []).0 ≢ failed out_of_rounds
remove_one_ends_example = remove_one_ends swarm swarm-IsTimed own (str "web") (str "web_data") []

abbrev volumes : List Str
volumes = str "web_data" ∷ str "db_data" ∷ []
