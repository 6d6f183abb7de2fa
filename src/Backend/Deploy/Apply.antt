-- ===== src/Backend/Deploy/Apply.antt =====
-- backend/resource.go, applyNetworks, applySecrets and applyConfigs, and backend/service.go,
-- ApplyServices and what it calls.
use swarmcli_cd.Base.{
  ℕ, zero, suc, Bool, not, ◌&&◌, ◌||◌, Option, none, some, List, [], ◌∷◌, Str, str, seq, elem,
  is_empty, keep, if◌then◌else◌, Outcome, ok, err,
}
use swarmcli_cd.Owner.{scoped}
use swarmcli_cd.Backend.{
  Labels, Named, Network, Service, Stack, SelfMounts, Backend, label_at, permits,
}
use swarmcli_cd.Backend.Records.{Platform, is_release_record}
use swarmcli_cd.Backend.Self.{Images, same_image}
use swarmcli_cd.Backend.Deploy.{
  Current, Update, network_create, secret_create, secret_update, config_create, config_update,
  service_create, service_update, hold_self, out_of_band, Trace, WriteError, conflict, failed,
  unwritten, different_content, unpermitted, foreign_namespace, changed_underneath, Answers, Result,
  and_then, each, reading, writing, stamp_created, keep_created,
}

abbrev default_network_driver : Str
default_network_driver = str "overlay"

-- `if opts.Driver == "" { opts.Driver = defaultNetworkDriver }`
abbrev pub or_overlay : Network → Network
or_overlay nw = if is_empty nw.driver then record nw { driver = default_network_driver } else nw

unfoldable pub adoptable : Platform → List Str → Labels → Named → Bool
adoptable pf allowed current spec =
    seq (label_at pf.label_namespace current) (label_at pf.label_namespace spec.labels)
    || permits allowed spec.name

module _ (pf : Platform) (im : Images) (b : Backend) (w : Answers) where
  unfoldable pub apply_network : List Str → Network → Trace → Result
  apply_network live nw tr =
      if elem nw.name live then (none, tr) else writing w (network_create (or_overlay nw)) tr

  unfoldable pub apply_networks : List Network → Trace → Result
  apply_networks networks tr =
      reading (w.stack_networks tr) (λ live. each (apply_network live) networks) tr

  -- The switch of `applySecrets`, on what inspecting the name gave.
  abbrev pub place_secret : Named → Option Labels → Trace → Result
  place_secret spec none tr =
      writing w (secret_create (record spec { labels = stamp_created (w.time tr) spec.labels })) tr
  place_secret spec (some held) tr =
      if not (adoptable pf b.allow.secrets held spec)
      then (some (unpermitted spec.name), tr)
      else writing w
          (secret_update (record spec { content = []; labels = keep_created spec.labels held })) tr

  unfoldable pub apply_secret : Named → Trace → Result
  apply_secret spec tr = reading (w.secret tr spec.name) (place_secret spec) tr

  unfoldable pub apply_secrets : List Named → Trace → Result
  apply_secrets = each apply_secret

  abbrev pub place_config : Named → Option Named → Trace → Result
  place_config spec none tr =
      writing w (config_create (record spec { labels = stamp_created (w.time tr) spec.labels })) tr
  place_config spec (some cur) tr =
      if not (seq cur.content spec.content)
      then (some (different_content spec.name), tr)
      else if not (adoptable pf b.allow.configs cur.labels spec)
      then (some (unpermitted spec.name), tr)
      else writing w
          (config_update
            (record spec { content = []; labels = keep_created spec.labels cur.labels }))
          tr

  unfoldable pub apply_config : Named → Trace → Result
  apply_config spec tr = reading (w.config tr spec.name) (place_config spec) tr

  unfoldable pub apply_configs : List Named → Trace → Result
  apply_configs = each apply_config

  -- `existing[name]`
  unfoldable pub find_service : Str → List (Str × Current) → Option Current
  find_service name [] = none
  find_service name (s ∷ ss) =
      let rest = find_service name ss in if seq s.0 name then some s.1 else rest

  abbrev pub has_record : List Named → Bool
  has_record list = not (is_empty (keep (λ c. is_release_record pf c.labels) list))

  unfoldable pub reject_foreign_namespace : Str → List (Str × Current) → Trace → Result
  reject_foreign_namespace namespace existing tr =
      if is_empty existing || b.self_release
      then (none, tr)
      else reading (w.records_of tr namespace)
          (λ list tr.
            if has_record list then (none, tr) else (some (foreign_namespace namespace), tr))
          tr

  abbrev resolve_always : Str
  resolve_always = str "always"

  abbrev resolve_changed : Str
  resolve_changed = str "changed"

  abbrev pub image_of : Service → Option Str
  image_of svc = elim svc.container [ none ↦ none | some c ↦ some c.image ]

  abbrev or_empty : Option Str → Str
  or_empty none = []
  or_empty (some s) = s

  -- The third case of the switch of `prepareUpdate`: the running image stands in for the wanted one.
  abbrev kept_image : Option Str → Current → Option Str
  kept_image none cur = none
  kept_image (some want) cur = elim cur.image [
    | none ↦ some want
    | some live ↦
        if seq want cur.image_label && same_image im live cur.image_label
        then some live
        else some want
  ]

  unfoldable pub prepare_update : Str → Option Str → Current → Update
  prepare_update resolve want cur =
      let query : Bool =
        seq resolve resolve_always
        || (seq resolve resolve_changed && not (seq (or_empty want) cur.image_label)) in
      record {
        image = if query then want else kept_image want cur;
        force_update = cur.force_update;
        query = query;
      }

  unfoldable pub create_service : Str → Str → Service → Trace → Result
  create_service resolve name svc tr =
      reading (w.auth (image_of svc))
        (λ _.
          writing w
            (service_create name (seq resolve resolve_always || seq resolve resolve_changed)))
        tr

  abbrev max_conflict_retries : ℕ
  max_conflict_retries = 3

  -- What follows a version conflict: the out-of-band change is noted, and the service is read again.
  abbrev after_conflict : Str → Current → Trace → (Current → Trace → Result) → Result
  after_conflict name cur tr again =
      reading (w.inspect (out_of_band name ∷ tr) cur.id) again (out_of_band name ∷ tr)

  abbrev pub sent_update :
      Str → Current → (Current → Trace → Result) → Option WriteError → Trace → Result
  sent_update name cur again none tr = (none, tr)
  sent_update name cur again (some (failed e)) tr = (some (unwritten e), tr)
  sent_update name cur again (some conflict) tr = after_conflict name cur tr again

  -- `attempts` rounds of the loop of `updateService` are left. `want` is the image in the container
  -- spec that all rounds share: where a round keeps the running image, it writes that into the shared
  -- spec, and the next round finds it there.
  unfoldable pub update_attempts : Str → Str → ℕ → Option Str → Current → Trace → Result
  update_attempts resolve name zero want cur tr = (some (changed_underneath name), tr)
  update_attempts resolve name (suc attempts) want cur tr =
      let sent = prepare_update resolve want cur in
      let again = update_attempts resolve name attempts sent.image in
      reading (w.auth sent.image)
        (λ _ tr.
          sent_update name cur again (w.write (service_update cur.id sent ∷ tr))
            (service_update cur.id sent ∷ tr))
        tr

  unfoldable pub update_service : Str → Str → Service → Current → Trace → Result
  update_service resolve name svc = update_attempts resolve name max_conflict_retries (image_of svc)

  -- `deferSelf`: the controller's own service is handed to `holdSelf` and not replaced here.
  unfoldable pub is_held : Str → Current → Bool
  is_held own_id cur = b.self_release && (not (is_empty own_id) && seq cur.id own_id)

  abbrev pub place_service : Str → Str → Str → Service → Option Current → Trace → Result
  place_service resolve own_id name svc none tr = create_service resolve name svc tr
  place_service resolve own_id name svc (some cur) tr =
      if is_held own_id cur
      then (none, hold_self name ∷ tr)
      else update_service resolve name svc cur tr

  unfoldable pub apply_service : Str → Str → Str → List (Str × Current) → Service → Trace → Result
  apply_service resolve own_id namespace existing svc tr =
      place_service resolve own_id (scoped namespace svc.name) svc
        (find_service (scoped namespace svc.name) existing) tr

  -- `mounts` is the answer of the cached read, which is asked only for the controller's own release.
  abbrev pub own_service_id : Outcome Str SelfMounts → Outcome Str Str
  own_service_id mounts =
      if b.self_release then elim mounts [ ok mine ↦ ok mine.service_id | err e ↦ err e ] else ok []

  unfoldable pub apply_services : Outcome Str SelfMounts → Stack → Str → Trace → Result
  apply_services mounts stack resolve tr =
      reading (w.stack_services tr)
        (λ existing tr. and_then (reject_foreign_namespace stack.namespace existing tr) (
          reading (own_service_id mounts) (λ own_id.
            each (apply_service resolve own_id stack.namespace existing) stack.services)))
        tr
