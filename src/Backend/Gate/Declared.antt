-- ===== src/Backend/Gate/Declared.antt =====
-- What a stack may declare and join, after rejectForbiddenResources of backend/backend.go.
use swarmcli_cd.Base.{
  ◌≡◌, refl, ◌↔◌, ◌⊎◌, true, Option, none, List, arith, Str, elem_iff, In, Outcome, ok, err,
  given_iff,
}
use swarmcli_cd.Backend.{Labels, Named, SwarmNetwork, SelfMounts, Backend}
use swarmcli_cd.Backend.Records.{Platform, lower_case}
use swarmcli_cd.Backend.Gate.{
  Kind, secret, config, Daemon, check_own, unrecorded, joinable, refuse_foreign, unreadable,
  records, own_declared, held_network, swarm_networks, check_declared_secret, check_declared_config,
  check_external_network, check_declared_network,
}
use swarmcli_cd.Backend.Gate.Names.{
  Scoped, InStack, scoped_under_iff, in_controllers_stack_iff, named_like_iff, Unreserved, Ours,
  is_ours_iff,
}

module _ (pf : Platform) (b : Backend) (d : Daemon) (mine : SelfMounts) where
  -- By permission, or scoped under the stack and held by nothing that is not labelled as its own.
  abbrev pub Declarable : Str → List Str → Outcome Str (Option Labels) → Str → Type 0
  Declarable ns allowed held name =
      In name allowed ⊎ (Scoped ns name × ((h : Option Labels) × (held ≡ ok h) × Ours pf ns h))

  own_held_iff :
      (ns : Str) (h : Option Labels) (name : Str)
      → (own_declared pf ns (ok h) name ≡ ok true) ↔ (Scoped ns name × Ours pf ns h)
  unfolding own_declared
  own_held_iff ns h name = ground (arith, scoped_under_iff ns name, is_ours_iff pf ns h)

  own_unread : (ns e name : Str) → ¬ (own_declared pf ns (err e) name ≡ ok true)
  unfolding own_declared
  own_unread ns e name h = ground arith

  own_declared_iff :
      (ns : Str) (held : Outcome Str (Option Labels)) (name : Str)
      → (own_declared pf ns held name ≡ ok true)
        ↔ (Scoped ns name × ((h : Option Labels) × (held ≡ ok h) × Ours pf ns h))
  own_declared_iff ns (ok h) name =
      let (there, back) = own_held_iff ns h name in
      (λ e. ((there e).0, (h, refl, (there e).1)), λ (s, (k, e, o)). back (s, ground arith))
  own_declared_iff ns (err e) name = (λ h. absurd (own_unread ns e name h), λ (s, (k, h, o)). cc)

  check_own_iff :
      (kind : Kind) (ns : Str) (allowed : List Str) (held : Outcome Str (Option Labels))
      (name : Str)
      → (check_own pf b d mine kind ns allowed held name ≡ none) ↔ Declarable ns allowed held name
  check_own_iff kind ns allowed held name = ground (
    arith,
    elem_iff name allowed,
    own_declared_iff ns held name,
    given_iff unreadable (own_declared pf ns held name) (refuse_foreign pf b d mine kind name)
        (λ own. own ≡ true) λ own. ground arith,
  )

  abbrev pub DeclaredSecret : Str → Named → Type 0
  DeclaredSecret ns spec =
      Unreserved pf spec
      × (¬ (In spec.name b.forbidden_secrets))
      × (¬ (In spec.name mine.secrets))
      × Declarable ns b.allow.secrets (d.secret_labels spec.name) spec.name

  pub check_declared_secret_iff :
      (ns : Str) (spec : Named)
      → (check_declared_secret pf b d mine ns spec ≡ none) ↔ DeclaredSecret ns spec
  unfolding check_declared_secret
  check_declared_secret_iff ns spec = ground (
    arith,
    named_like_iff pf spec.name,
    elem_iff spec.name b.forbidden_secrets,
    elem_iff spec.name mine.secrets,
    check_own_iff secret ns b.allow.secrets (d.secret_labels spec.name) spec.name,
  )

  abbrev pub Unrecorded : Str → Named → List Str → Type 0
  Unrecorded ns spec known =
      (¬ (In (lower_case pf spec.name) known))
      × Declarable ns b.allow.configs (d.config_labels spec.name) spec.name

  abbrev pub DeclaredConfig : Str → Named → Type 0
  DeclaredConfig ns spec =
      Unreserved pf spec
      × (¬ (In spec.name mine.configs))
      × ((known : List Str) × (records pf d ≡ ok known) × Unrecorded ns spec known)

  pub check_declared_config_iff :
      (ns : Str) (spec : Named)
      → (check_declared_config pf b d mine ns spec ≡ none) ↔ DeclaredConfig ns spec
  unfolding check_declared_config
  check_declared_config_iff ns spec = ground (
    arith,
    named_like_iff pf spec.name,
    elem_iff spec.name mine.configs,
    given_iff unreadable (records pf d) (unrecorded pf b d mine ns spec) (Unrecorded ns spec)
        λ known. ground (
          arith,
          elem_iff (lower_case pf spec.name) known,
          check_own_iff config ns b.allow.configs (d.config_labels spec.name) spec.name,
        ),
  )

  -- A network of the controller's stack for its own release alone, another by permission.
  abbrev pub ExternalNetwork : Str → Type 0
  ExternalNetwork name =
      (InStack mine.namespace name × (b.self_release ≡ true))
      ⊎ ((¬ (InStack mine.namespace name)) × In name b.allow.networks)

  pub check_external_network_iff :
      (name : Str) → (check_external_network pf b d mine name ≡ none) ↔ ExternalNetwork name
  unfolding check_external_network
  check_external_network_iff name =
      ground (arith, in_controllers_stack_iff mine.namespace name, elem_iff name b.allow.networks)

  abbrev pub Joinable : Str → Str → List SwarmNetwork → Type 0
  Joinable ns name all =
      Ours pf ns (held_network pf (swarm_networks all) name)
      × (Scoped ns name ⊎ In name b.allow.networks)

  abbrev pub DeclaredNetwork : Str → Str → Type 0
  DeclaredNetwork ns name =
      (InStack mine.namespace name × (b.self_release ≡ true))
      ⊎ ((¬ (InStack mine.namespace name))
          × ((all : List SwarmNetwork) × (d.networks ≡ ok all) × Joinable ns name all))

  pub check_declared_network_iff :
      (ns name : Str)
      → (check_declared_network pf b d mine ns name ≡ none) ↔ DeclaredNetwork ns name
  unfolding check_declared_network
  check_declared_network_iff ns name = ground (
    arith,
    in_controllers_stack_iff mine.namespace name,
    given_iff unreadable d.networks (joinable pf b d mine ns name) (Joinable ns name) λ all.
        ground (
          arith,
          is_ours_iff pf ns (held_network pf (swarm_networks all) name),
          scoped_under_iff ns name,
          elem_iff name b.allow.networks,
        ),
  )
