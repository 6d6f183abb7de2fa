-- ===== src/Backend/Deploy/Orderly.antt =====
-- What the writes of DeployStack, of backend/backend.go, are, and in which order they come.
use swarmcli_cd.Base.{
  ℕ, ◌≤◌, ◌≡◌, ◌⊎◌, inl, inr, refl, sym, subst, true, not, ◌||◌, is_empty, Option, none, some, List,
  [], ◌∷◌, arith, Str, In, Outcome, Outcome-cases, ok, elem, elem_iff, seq, seq_iff, zero, suc,
}
use swarmcli_cd.Application.{Allow}
use swarmcli_cd.Backend.{Labels, Named, Network, Service, Stack, SelfMounts, Backend, label_at}
use swarmcli_cd.Backend.Records.{Platform}
use swarmcli_cd.Backend.Self.{Images}
use swarmcli_cd.Backend.Deploy.{
  Current, Event, network_create, secret_create, secret_update, config_create, config_update,
  service_create, service_update, hold_self, out_of_band, Trace, WriteError, conflict, failed,
  Answers, Result, and_then, each,
}
use swarmcli_cd.Backend.Deploy.Apply.{
  apply_network, apply_networks, apply_secret, apply_secrets, apply_config, apply_configs,
  apply_service, apply_services, adoptable, place_secret, place_config, reject_foreign_namespace,
  create_service, update_attempts, update_service, place_service, or_overlay, sent_update,
  prepare_update, is_held, has_record, own_service_id,
}
use swarmcli_cd.Backend.Deploy.Relabelled.{
  Stamped, Relabelled, stamp_created-Stamped, keep_created-Relabelled,
}
use swarmcli_cd.Backend.Deploy.Guarded.{
  Reads, apply_stack, from_secrets, from_configs, apply_resolved, converted, deploy_stack,
  deploy_stack-cases, Guarded,
}
use swarmcli_cd.Backend.Deploy.Ordered.{
  InOrder, Keeps, InOrder-and_then, InOrder-each, InOrder-reading, InOrder-writing, InOrder-if,
  InOrder-snoc, InOrder-later,
}

module _ (pf : Platform) (im : Images) (b : Backend) (w : Answers) (stack : Stack) where
  abbrev Declared : List Named → Named → Type 0
  Declared declared s =
      (spec : Named) × In spec declared
      × (s.name ≡ spec.name)
      × (s.content ≡ spec.content)
      × ((tr : Trace) × Stamped (w.time tr) spec.labels s.labels)

  -- Labelled as the declaration is, or permitted by name.
  abbrev Adoptable : List Str → Labels → Named → Type 0
  Adoptable allowed held spec =
      (label_at pf.label_namespace held ≡ label_at pf.label_namespace spec.labels)
      ⊎ In spec.name allowed

  abbrev SecretFound : Named → Labels → Type 0
  SecretFound spec labels =
      (tr : Trace) × (held : Labels) × (w.secret tr spec.name ≡ ok (some held))
      × Adoptable b.allow.secrets held spec
      × Relabelled spec.labels held labels

  abbrev ConfigFound : Named → Labels → Type 0
  ConfigFound spec labels =
      (tr : Trace) × (cur : Named) × (w.config tr spec.name ≡ ok (some cur))
      × (cur.content ≡ spec.content)
      × Adoptable b.allow.configs cur.labels spec
      × Relabelled spec.labels cur.labels labels

  -- A network or a resource that is written is declared by the stack under its name; one that is
  -- created has the declared content and the mark of creation; one that is updated was found,
  -- adoptable, a config with the content that is declared, and keeps the mark.
  abbrev pub Lawful : Event → Type 0
  Lawful (network_create nw) = (n : Network) × In n stack.networks × (nw.name ≡ n.name)
  Lawful (secret_create s) = Declared stack.secrets s
  Lawful (secret_update s) =
      (spec : Named) × In spec stack.secrets × (s.name ≡ spec.name) × SecretFound spec s.labels
  Lawful (config_create s) = Declared stack.configs s
  Lawful (config_update s) =
      (spec : Named) × In spec stack.configs × (s.name ≡ spec.name) × ConfigFound spec s.labels
  Lawful (service_create n q) = Unit
  Lawful (service_update n u) = Unit
  Lawful (hold_self n) = Unit
  Lawful (out_of_band n) = Unit

  -- In order so far, and nothing of a rank above `k`.
  abbrev pub Orderly : ℕ → Trace → Type 0
  Orderly = InOrder Lawful

  or_overlay-name : (nw : Network) → (or_overlay nw).name ≡ nw.name
  or_overlay-name nw = ground arith

  apply_network-Orderly :
      (live : List Str) (nw : Network)
      → In nw stack.networks
      → Keeps Lawful 0 (apply_network pf im b w live nw)
  unfolding apply_network
  apply_network-Orderly live nw m tr o =
      InOrder-if Lawful 0 (elem nw.name live) _ _ (λ _. o)
        λ _.
          InOrder-writing Lawful w (network_create (or_overlay nw)) (nw, m, or_overlay-name nw) tr o

  apply_networks-Orderly : Keeps Lawful 0 (apply_networks pf im b w stack.networks)
  unfolding apply_networks
  apply_networks-Orderly tr =
      InOrder-reading Lawful 0 (w.stack_networks tr)
        (λ live. each (apply_network pf im b w live) stack.networks)
        (λ live e.
          InOrder-each Lawful 0 (apply_network pf im b w live) stack.networks
            (apply_network-Orderly live))
        tr

  adoptable-Adoptable :
      (allowed : List Str) (held : Labels) (spec : Named)
      → adoptable pf allowed held spec ≡ true
      → Adoptable allowed held spec
  unfolding adoptable
  adoptable-Adoptable allowed held spec h = ground (
    arith,
    seq_iff (label_at pf.label_namespace held) (label_at pf.label_namespace spec.labels),
    elem_iff spec.name allowed,
  )

  place_secret-Orderly :
      (spec : Named) (o : Option Labels) (tr0 : Trace)
      → In spec stack.secrets
      → w.secret tr0 spec.name ≡ ok o
      → Keeps Lawful 1 (place_secret pf im b w spec o)
  place_secret-Orderly spec none tr0 m e tr o =
      InOrder-writing Lawful w (secret_create _)
        (spec, m, refl, refl, (tr, stamp_created-Stamped (w.time tr) spec.labels)) tr o
  place_secret-Orderly spec (some held) tr0 m e tr o =
      InOrder-if Lawful 1 (not (adoptable pf b.allow.secrets held spec)) _ _ (λ _. o)
        λ c.
          InOrder-writing Lawful w (secret_update _)
            (
              spec,
              m,
              refl,
              (
                tr0,
                held,
                e,
                adoptable-Adoptable b.allow.secrets held spec (ground arith),
                keep_created-Relabelled spec.labels held,
              ),
            )
            tr o

  apply_secret-Orderly :
      (spec : Named) → In spec stack.secrets → Keeps Lawful 1 (apply_secret pf im b w spec)
  unfolding apply_secret
  apply_secret-Orderly spec m tr =
      InOrder-reading Lawful 1 (w.secret tr spec.name) (place_secret pf im b w spec)
        (λ o e. place_secret-Orderly spec o tr m e) tr

  place_config-Orderly :
      (spec : Named) (o : Option Named) (tr0 : Trace)
      → In spec stack.configs
      → w.config tr0 spec.name ≡ ok o
      → Keeps Lawful 2 (place_config pf im b w spec o)
  place_config-Orderly spec none tr0 m e tr o =
      InOrder-writing Lawful w (config_create _)
        (spec, m, refl, refl, (tr, stamp_created-Stamped (w.time tr) spec.labels)) tr o
  place_config-Orderly spec (some cur) tr0 m e tr o =
      InOrder-if Lawful 2 (not (seq cur.content spec.content)) _ _ (λ _. o)
        λ c.
          InOrder-if Lawful 2 (not (adoptable pf b.allow.configs cur.labels spec)) _ _ (λ _. o)
            λ d.
              InOrder-writing Lawful w (config_update _)
                (
                  spec,
                  m,
                  refl,
                  (
                    tr0,
                    cur,
                    e,
                    ground (arith, seq_iff cur.content spec.content),
                    adoptable-Adoptable b.allow.configs cur.labels spec (ground arith),
                    keep_created-Relabelled spec.labels cur.labels,
                  ),
                )
                tr o

  apply_config-Orderly :
      (spec : Named) → In spec stack.configs → Keeps Lawful 2 (apply_config pf im b w spec)
  unfolding apply_config
  apply_config-Orderly spec m tr =
      InOrder-reading Lawful 2 (w.config tr spec.name) (place_config pf im b w spec)
        (λ o e. place_config-Orderly spec o tr m e) tr

  sent_update-Orderly :
      (name : Str) (cur : Current) (again : Current → Trace → Result) (o : Option WriteError)
      → ((fresh : Current) → Keeps Lawful 3 (again fresh))
      → Keeps Lawful 3 (sent_update pf im b w name cur again o)
  sent_update-Orderly name cur again none h tr o = o
  sent_update-Orderly name cur again (some (failed e)) h tr o = o
  sent_update-Orderly name cur again (some conflict) h tr o =
      InOrder-reading Lawful 3 (w.inspect (out_of_band name ∷ tr) cur.id) again (λ fresh e. h fresh)
        (out_of_band name ∷ tr) (InOrder-snoc Lawful (out_of_band name) tr tt o)

  update_attempts-Orderly :
      (resolve name : Str) (n : ℕ) (want : Option Str) (cur : Current)
      → Keeps Lawful 3 (update_attempts pf im b w resolve name n want cur)
  unfolding update_attempts
  update_attempts-Orderly resolve name zero want cur tr o = o
  update_attempts-Orderly resolve name (suc n) want cur tr o =
      InOrder-reading Lawful 3 (w.auth _) _
        (λ _ _ tr o.
          sent_update-Orderly name cur _ (w.write _) (update_attempts-Orderly resolve name n _)
            (service_update cur.id (prepare_update pf im b w resolve want cur) ∷ tr)
            (InOrder-snoc Lawful (service_update cur.id (prepare_update pf im b w resolve want cur))
              tr tt o))
        tr o

  place_service-Orderly :
      (resolve own_id name : Str) (svc : Service) (o : Option Current)
      → Keeps Lawful 3 (place_service pf im b w resolve own_id name svc o)
  unfolding create_service update_service
  place_service-Orderly resolve own_id name svc none tr o =
      InOrder-reading Lawful 3 (w.auth _) _
        (λ _ _. InOrder-writing Lawful w (service_create name _) tt) tr o
  place_service-Orderly resolve own_id name svc (some cur) tr o =
      InOrder-if Lawful 3 (is_held pf im b w own_id cur) _ _
        (λ _. InOrder-snoc Lawful (hold_self name) tr tt o)
        λ _. update_attempts-Orderly resolve name _ _ cur tr o

  reject_foreign_namespace-Orderly :
      (namespace : Str) (existing : List (Str × Current))
      → Keeps Lawful 3 (reject_foreign_namespace pf im b w namespace existing)
  unfolding reject_foreign_namespace
  reject_foreign_namespace-Orderly namespace existing tr o =
      InOrder-if Lawful 3 (is_empty existing || b.self_release) _ _ (λ _. o)
        λ _.
          InOrder-reading Lawful 3 (w.records_of tr namespace) _
            (λ list _ tr o. InOrder-if Lawful 3 (has_record pf im b w list) _ _ (λ _. o) λ _. o) tr
            o

  apply_services-Orderly :
      (mounts : Outcome Str SelfMounts) (resolved : Stack) (resolve : Str)
      → Keeps Lawful 3 (apply_services pf im b w mounts resolved resolve)
  unfolding apply_services apply_service
  apply_services-Orderly mounts resolved resolve tr =
      InOrder-reading Lawful 3 (w.stack_services tr) _
        (λ existing _ tr o.
          InOrder-and_then Lawful 3
            (reject_foreign_namespace pf im b w resolved.namespace existing tr) _
            (reject_foreign_namespace-Orderly resolved.namespace existing tr o)
            (InOrder-reading Lawful 3 (own_service_id pf im b w mounts) _ (λ own_id _.
              InOrder-each Lawful 3 _ resolved.services
                (λ svc _. place_service-Orderly resolve own_id _ svc _))))
        tr

apply_stack-Orderly :
    (pf : Platform) (im : Images) (b : Backend) (r : Reads) (w : Answers) (release resolve : Str)
    (allow : Allow) (stack : Stack)
    → Orderly pf im b w stack 3 (apply_stack pf im b r w release resolve allow stack []).1
unfolding apply_stack apply_secrets apply_configs
apply_stack-Orderly pf im b r w release resolve allow stack =
    phase 0 3 (omega arith) (apply_networks pf im b w stack.networks [])
      (from_secrets pf im b r w release resolve allow stack)
      (apply_networks-Orderly pf im b w stack [] (tt, tt)) secrets
  where
    phase :
        (k m : ℕ)
        → k ≤ m
        → (x : Result) (next : Trace → Result) → Orderly pf im b w stack k x.1
        → ((tr : Trace) → Orderly pf im b w stack k tr → Orderly pf im b w stack m (next tr).1)
        → Orderly pf im b w stack m (and_then x next).1
    phase k m le (none, tr) next o h = h tr o
    phase k m le (some e, tr) next o h = InOrder-later (Lawful pf im b w stack) k m tr le o

    resolved :
        (tr : Trace)
        → Orderly pf im b w stack 3 tr
        → Orderly pf im b w stack 3 (apply_resolved pf im b r w release resolve allow tr).1
    resolved tr o = elim (Outcome-cases (r.convert tr allow)) [
      | inl (s, e) ↦
          rw (e, converted) (apply_services-Orderly pf im b w stack r.daemon.mounts s resolve tr o)
      | inr (x, e) ↦ rw (e, converted) o
    ]

    configs :
        (tr : Trace)
        → Orderly pf im b w stack 1 tr
        → Orderly pf im b w stack 3 (from_configs pf im b r w release resolve allow stack tr).1
    configs tr o =
        phase 2 3 (omega arith) (apply_configs pf im b w stack.configs tr)
          (apply_resolved pf im b r w release resolve allow)
          (InOrder-each (Lawful pf im b w stack) 2 (apply_config pf im b w) stack.configs
            (apply_config-Orderly pf im b w stack) tr
            (InOrder-later (Lawful pf im b w stack) 1 2 tr (omega arith) o))
          λ tr o. resolved tr (InOrder-later (Lawful pf im b w stack) 2 3 tr (omega arith) o)

    secrets :
        (tr : Trace)
        → Orderly pf im b w stack 0 tr
        → Orderly pf im b w stack 3 (from_secrets pf im b r w release resolve allow stack tr).1
    secrets tr o =
        phase 1 3 (omega arith) (apply_secrets pf im b w stack.secrets tr)
          (from_configs pf im b r w release resolve allow stack)
          (InOrder-each (Lawful pf im b w stack) 1 (apply_secret pf im b w) stack.secrets
            (apply_secret-Orderly pf im b w stack) tr
            (InOrder-later (Lawful pf im b w stack) 0 1 tr (omega arith) o))
          configs

-- A deploy either writes nothing, or it passed every guard on its name and on what it declares and
-- then writes in order: networks, secrets, configs, services. Each network, secret and config
-- that it writes is declared by the stack, and one that it updates was found labelled as the stack's
-- or is permitted by name, a config with the declared content.
pub deploy_stack-Orderly :
    (pf : Platform) (im : Images) (b : Backend) (r : Reads) (w : Answers) (release resolve : Str)
    → ((deploy_stack pf im b r w release resolve []).1 ≡ [])
      ⊎ ((allow : Allow) × (stack : Stack) × Guarded pf im b r w release resolve allow stack
          × Orderly pf im b w stack 3 (deploy_stack pf im b r w release resolve []).1)
deploy_stack-Orderly pf im b r w release resolve =
    elim (deploy_stack-cases pf im b r w release resolve) [
      | inl e ↦ inl e
      | inr (allow, stack, g, e) ↦ inr (
        allow,
        stack,
        g,
        subst (λ x. Orderly pf im b w stack 3 x.1) (sym e)
            (apply_stack-Orderly pf im b r w release resolve allow stack),
      )
    ]
