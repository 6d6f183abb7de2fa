-- ===== src/Backend/Gate/Refs.antt =====
-- What a service may reach for outside its stack, after rejectForbiddenResources of
-- backend/backend.go.
use swarmcli_cd.Base.{
  ◌≡◌, ◌↔◌, ◌⊎◌, true, false, none, List, arith, Str, seq_iff, elem_iff, In, All, ok, check_all_iff,
  given_iff,
}
use swarmcli_cd.Backend.{
  Mount, Service, Stack, SelfMounts, Backend, own_mount, external_refs, volume_sources,
  driver_backed,
}
use swarmcli_cd.Backend.Records.{Platform, lower_case}
use swarmcli_cd.Backend.Gate.{
  Daemon, config_ref, held_volume, unreadable, records, volume_holder, creates_volume,
  check_secret_ref, check_config_ref, check_volume, not_own_volume, check_service,
}
use swarmcli_cd.Backend.Gate.Names.{Scoped, scoped_under_iff}

module _ (pf : Platform) (b : Backend) (d : Daemon) (mine : SelfMounts) where
  -- Of the controller's own release, and held by the controller already.
  abbrev pub Recognised : List Str → Str → Type 0
  Recognised held name = (b.self_release ≡ true) × In name held

  abbrev pub SecretRef : Str → Type 0
  SecretRef name =
      Recognised mine.secrets name
      ⊎ ((¬ (In name b.forbidden_secrets)) × (¬ (In name mine.secrets)) × In name b.allow.secrets)

  check_secret_ref_iff :
      (svc name : Str) → (check_secret_ref pf b d mine svc name ≡ none) ↔ SecretRef name
  unfolding check_secret_ref own_mount
  check_secret_ref_iff svc name = ground (
    arith,
    elem_iff name b.forbidden_secrets,
    elem_iff name mine.secrets,
    elem_iff name b.allow.secrets,
  )

  abbrev pub NoRecord : Str → List Str → Type 0
  NoRecord name known =
      (¬ (In (lower_case pf name) known))
      × (Recognised mine.configs name ⊎ ((¬ (In name mine.configs)) × In name b.allow.configs))

  abbrev pub ConfigRef : Str → Type 0
  ConfigRef name = (known : List Str) × (records pf d ≡ ok known) × NoRecord name known

  check_config_ref_iff :
      (svc name : Str) → (check_config_ref pf b d mine svc name ≡ none) ↔ ConfigRef name
  unfolding check_config_ref own_mount
  check_config_ref_iff svc name =
      given_iff unreadable (records pf d) (config_ref pf b d mine svc name) (NoRecord name) λ known.
        ground (
          arith,
          elem_iff (lower_case pf name) known,
          elem_iff name mine.configs,
          elem_iff name b.allow.configs,
        )

  -- The stack's own: scoped under its name, and not held on this node by a stack that it is scoped
  -- under too.
  abbrev pub OwnVolume : Str → Str → Type 0
  OwnVolume ns name =
      Scoped ns name
      × ((holder : Str) × (volume_holder pf (d.volume name) ≡ ok holder)
          × (Scoped holder name → holder ≡ ns))

  not_own_volume_iff :
      (ns svc name : Str) → (not_own_volume pf b d mine ns svc name ≡ none) ↔ OwnVolume ns name
  unfolding not_own_volume
  not_own_volume_iff ns svc name = ground (
    arith,
    scoped_under_iff ns name,
    given_iff unreadable (volume_holder pf (d.volume name)) (held_volume pf b d mine ns svc name)
        (λ holder. Scoped holder name → holder ≡ ns)
        λ holder. ground (arith, seq_iff holder ns, scoped_under_iff holder name),
  )

  -- Another's volume by permission; the stack's own, and by permission if a driver makes it.
  abbrev pub VolumeMount : Str → List Str → Mount → Type 0
  VolumeMount ns driven m =
      Recognised mine.volumes m.source
      ⊎ ((¬ (In m.source mine.volumes))
          × (((creates_volume pf m ≡ false) × In m.source b.allow.volumes)
              ⊎ ((creates_volume pf m ≡ true)
                  × OwnVolume ns m.source
                  × (In m.source driven → In m.source b.allow.volumes))))

  check_volume_iff :
      (ns svc : Str) (driven : List Str) (m : Mount)
      → (check_volume pf b d mine ns driven svc m ≡ none) ↔ VolumeMount ns driven m
  unfolding check_volume own_mount
  check_volume_iff ns svc driven m = ground (
    arith,
    elem_iff m.source mine.volumes,
    elem_iff m.source b.allow.volumes,
    elem_iff m.source driven,
    not_own_volume_iff ns svc m.source,
  )

  -- What one service reaches for outside the stack.
  abbrev pub ServiceRefs : Stack → Service → Type 0
  ServiceRefs stack svc =
      All SecretRef (external_refs stack svc).0
      × All ConfigRef (external_refs stack svc).1
      × All (VolumeMount stack.namespace (driver_backed svc)) (volume_sources svc)

  pub check_service_iff :
      (stack : Stack) (svc : Service)
      → (check_service pf b d mine stack svc ≡ none) ↔ ServiceRefs stack svc
  unfolding check_service
  check_service_iff stack svc = ground (
    arith,
    check_all_iff _ SecretRef (check_secret_ref_iff svc.name) (external_refs stack svc).0,
    check_all_iff _ ConfigRef (check_config_ref_iff svc.name) (external_refs stack svc).1,
    check_all_iff _ (VolumeMount stack.namespace (driver_backed svc))
        (check_volume_iff stack.namespace svc.name (driver_backed svc)) (volume_sources svc),
  )
