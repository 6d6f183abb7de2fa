-- ===== src/Backend/Gate/Permitted.antt =====
-- What rejectForbiddenResources of backend/backend.go lets a stack hold.
use swarmcli_cd.Base.{◌≡◌, ◌↔◌, none, arith, All, ok, check_all_iff, given_iff}
use swarmcli_cd.Backend.{Stack, SelfMounts, Backend}
use swarmcli_cd.Backend.Records.{Platform}
use swarmcli_cd.Backend.Gate.{secret, config, Daemon, unreadable, reject_forbidden_resources}
use swarmcli_cd.Backend.Gate.Names.{Unreserved, reject_reserved_external_iff}
use swarmcli_cd.Backend.Gate.Refs.{ServiceRefs, check_service_iff}
use swarmcli_cd.Backend.Gate.Declared.{
  DeclaredSecret, check_declared_secret_iff, DeclaredConfig, check_declared_config_iff,
  ExternalNetwork, check_external_network_iff, DeclaredNetwork, check_declared_network_iff,
}

module _ (pf : Platform) where
  module _ (b : Backend) (d : Daemon) (mine : SelfMounts) where
    abbrev pub Holds : Stack → Type 0
    Holds stack =
        All (Unreserved pf) stack.external_secrets
        × All (Unreserved pf) stack.external_configs
        × All (ServiceRefs pf b d mine stack) stack.services
        × All (DeclaredSecret pf b d mine stack.namespace) stack.secrets
        × All (DeclaredConfig pf b d mine stack.namespace) stack.configs
        × All (ExternalNetwork pf b d mine) stack.external_networks
        × All (λ nw. DeclaredNetwork pf b d mine stack.namespace nw.name) stack.networks

  abbrev pub Permitted : Backend → Daemon → Stack → Type 0
  Permitted b d stack = (mine : SelfMounts) × (d.mounts ≡ ok mine) × Holds b d mine stack

  -- The guard finds no error exactly if every read that it needs is answered and each part of the
  -- stack is as `Permitted` spells out: external names unreserved, what a service reaches for outside
  -- the stack permitted and not the controller's, what the stack declares its own, and networks that
  -- are not the controller's.
  pub reject_forbidden_resources_iff :
      (b : Backend) (d : Daemon) (stack : Stack)
      → (reject_forbidden_resources pf b d stack ≡ none) ↔ Permitted b d stack
  unfolding reject_forbidden_resources
  reject_forbidden_resources_iff b d stack =
      given_iff unreadable d.mounts _ (λ mine. Holds b d mine stack)
        λ mine. ground (
          arith,
          check_all_iff _ (Unreserved pf) (reject_reserved_external_iff pf secret)
              stack.external_secrets,
          check_all_iff _ (Unreserved pf) (reject_reserved_external_iff pf config)
              stack.external_configs,
          check_all_iff _ (ServiceRefs pf b d mine stack) (check_service_iff pf b d mine stack)
              stack.services,
          check_all_iff _ (DeclaredSecret pf b d mine stack.namespace)
              (check_declared_secret_iff pf b d mine stack.namespace) stack.secrets,
          check_all_iff _ (DeclaredConfig pf b d mine stack.namespace)
              (check_declared_config_iff pf b d mine stack.namespace) stack.configs,
          check_all_iff _ (ExternalNetwork pf b d mine) (check_external_network_iff pf b d mine)
              stack.external_networks,
          check_all_iff _ (λ nw. DeclaredNetwork pf b d mine stack.namespace nw.name)
              (λ nw. check_declared_network_iff pf b d mine stack.namespace nw.name) stack.networks,
        )
