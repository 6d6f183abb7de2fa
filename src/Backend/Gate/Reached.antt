-- ===== src/Backend/Gate/Reached.antt =====
-- What the services of a stack that backend/backend.go, rejectForbiddenResources, accepts can read.
use swarmcli_cd.Base.{
  ◌≡◌, ◌⊎◌, inl, inr, sym, subst, false, not, none, some, List, map, arith, Str, elem, elem_iff, In,
  All, In-keep, of_In-map, of_All, ok, Bool-cases,
}
use swarmcli_cd.Backend.{
  Named, Service, Container, Reference, Stack, SelfMounts, Backend, external_refs, names_of,
  undeclared_refs,
}
use swarmcli_cd.Backend.Records.{Platform, lower_case}
use swarmcli_cd.Backend.Gate.{Daemon, records, reject_forbidden_resources}
use swarmcli_cd.Backend.Gate.Permitted.{reject_forbidden_resources_iff}
use swarmcli_cd.Backend.Gate.Refs.{SecretRef, ConfigRef, ServiceRefs}
use swarmcli_cd.Backend.Gate.Declared.{Declarable, DeclaredSecret, DeclaredConfig}

-- A container of the stack mounts the name.
abbrev pub MountsSecret : Stack → Str → Type 0
MountsSecret stack name =
    (svc : Service) × In svc stack.services
    × ((c : Container) × (svc.container ≡ some c) × In name (map (λ r. r.name) c.secrets))

abbrev pub MountsConfig : Stack → Str → Type 0
MountsConfig stack name =
    (svc : Service) × In svc stack.services
    × ((c : Container) × (svc.container ≡ some c) × In name (map (λ r. r.name) c.configs))

refs_of_container :
    (stack : Stack) (svc : Service) (c : Container)
    → svc.container ≡ some c
    → external_refs stack svc ≡ (
      undeclared_refs (names_of stack.secrets) c.secrets,
      undeclared_refs (names_of stack.configs) c.configs,
    )
unfolding external_refs
refs_of_container stack svc c e = rw e

-- A mounted name is one that the stack declares, or one that counts as reached for outside it.
declared_or_external :
    (declared : List Named) (refs : List Reference) (name : Str)
    → In name (map (λ r. r.name) refs)
    → In name (names_of declared) ⊎ In name (undeclared_refs (names_of declared) refs)
declared_or_external declared refs name m = elim (Bool-cases (elem name (names_of declared))) [
  | inl e ↦ inl ((elem_iff name (names_of declared)).0 e)
  | inr e ↦ inr (
      (In-keep (λ n. not (elem n (names_of declared))) name (map (λ r. r.name) refs)).1
        (m, ground arith))
]

module _ (pf : Platform) (b : Backend) (d : Daemon) (stack : Stack) where
  -- Neither a credential of the controller nor a name that the stack has no claim to.
  abbrev pub Grantable : SelfMounts → Str → Type 0
  Grantable mine name =
      (¬ (In name b.forbidden_secrets))
      × (¬ (In name mine.secrets))
      × Declarable pf b d mine stack.namespace b.allow.secrets (d.secret_labels name) name

  mounted_in :
      (mine : SelfMounts) (name : Str)
      → b.self_release ≡ false
      → All (ServiceRefs pf b d mine stack) stack.services
      → All (DeclaredSecret pf b d mine stack.namespace) stack.secrets
      → MountsSecret stack name
      → Grantable mine name
  mounted_in mine name s refs decl (svc, i, (c, e, m)) =
      elim (declared_or_external stack.secrets c.secrets name m) [
        | inl k ↦
            let (spec, j, q) = of_In-map (λ s. s.name) name stack.secrets k in
            let own : DeclaredSecret pf b d mine stack.namespace spec =
              of_All (DeclaredSecret pf b d mine stack.namespace) spec stack.secrets decl j in
            subst (Grantable mine) (sym q) (own.1, own.2, own.3)
        | inr k ↦
            let ref : SecretRef pf b d mine name =
              of_All (SecretRef pf b d mine) name (external_refs stack svc).0
                (of_All (ServiceRefs pf b d mine stack) svc stack.services refs i).0
                (subst (λ p. In name p.0) (sym (refs_of_container stack svc c e)) k) in
            elim ref [ inl g ↦ cc | inr (f, g, h) ↦ (f, g, inl h) ]
      ]

  -- Of a stack that is not the controller's own release and is accepted, each secret that a service
  -- mounts, declared in the stack or not, is none that the controller mounts or is wired to, and is
  -- permitted by name or is the stack's own and held by no other.
  pub mounted_secret-Grantable :
      (name : Str)
      → b.self_release ≡ false
      → reject_forbidden_resources pf b d stack ≡ none
      → MountsSecret stack name
      → (mine : SelfMounts) × (d.mounts ≡ ok mine) × Grantable mine name
  mounted_secret-Grantable name s h m =
      let (mine, e, held) = (reject_forbidden_resources_iff pf b d stack).0 h in
      (mine, e, mounted_in mine name s held.2 held.3 m)

  abbrev pub NoRecordAmong : Str → List Str → Type 0
  NoRecordAmong name known = ¬ (In (lower_case pf name) known)

  -- Of any stack that is accepted, the controller's own release included, no config that a service
  -- mounts, declared in the stack or not, has the name of a release record in any case.
  pub mounted_config-NoRecordAmong :
      (name : Str)
      → reject_forbidden_resources pf b d stack ≡ none
      → MountsConfig stack name
      → (known : List Str) × (records pf d ≡ ok known) × NoRecordAmong name known
  mounted_config-NoRecordAmong name h (svc, i, (c, e, m)) =
      let (mine, e', held) = (reject_forbidden_resources_iff pf b d stack).0 h in
      elim (declared_or_external stack.configs c.configs name m) [
        | inl k ↦
            let (spec, j, q) = of_In-map (λ s. s.name) name stack.configs k in
            let (known, r, u) =
              (of_All (DeclaredConfig pf b d mine stack.namespace) spec stack.configs held.4 j).2 in
            (known, r, subst (λ n. NoRecordAmong n known) (sym q) u.0)
        | inr k ↦
            let (known, r, u) =
              of_All (ConfigRef pf b d mine) name (external_refs stack svc).1
                (of_All (ServiceRefs pf b d mine stack) svc stack.services held.2 i).1
                (subst (λ p. In name p.1) (sym (refs_of_container stack svc c e)) k) in
            (known, r, u.0)
      ]
