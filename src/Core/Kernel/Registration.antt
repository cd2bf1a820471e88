-- ===== src/Core/Kernel/Registration.antt =====
-- `register_capability`, `register_executor`: a capability and its executor are registered once,
-- and as the store has them.
use essence_agent.Base.{String, Bool, true, false, Option, none, some, not, ◌!=◌}
use essence_agent.Base.Table.{lookup, insert}
use essence_agent.Base.Outcome.Pure.{ok, fail_if}
use essence_agent.Base.Outcome.Action.{pure, gets, lift, raise_if, modify, ◌>>=◌, ◌>>◌}
use essence_agent.Contracts.{
  CapabilityContract, CapabilityContract-eq, ExecutorManifest, ExecutorManifest-eq,
  ExecutorIsolation, PolicyConfig,
}
use essence_agent.Platform.{Platform}
use essence_agent.Store.{
  capability_contract, record_capability_contract, executor_manifest, record_executor_manifest,
}
use essence_agent.Core.Errors.{
  CoreResult, capability_contract_mismatch, executor_isolation_unsupported,
  executor_manifest_mismatch,
}
use essence_agent.Core.Manifests.{validate_capability_contract, validate_executor_manifest}
use essence_agent.Core.Kernel.State.{KernelAction, stored}

unfoldable pub set_policy_config : PolicyConfig → KernelAction (Unit {0})
set_policy_config policy_config = modify (λ k. record k { policy_config = policy_config })

-- `CapabilityRegistry::register`
unfoldable pub registry_register : Platform → CapabilityContract → KernelAction (Unit {0})
registry_register p contract = do
  lift (validate_capability_contract p contract)
  modify (λ k. record k { registry = insert contract.capability_id contract k.registry })

-- an existing contract, of the registry or of the store, is this one
abbrev same_contract : Option CapabilityContract → CapabilityContract → CoreResult (Unit {0})
same_contract none contract = ok tt
same_contract (some existing) contract = fail_if (existing != contract) capability_contract_mismatch

abbrev suits_contract :
    Platform → CapabilityContract → Option ExecutorManifest → CoreResult (Unit {0})
suits_contract p contract none = ok tt
suits_contract p contract (some manifest) = validate_executor_manifest p contract manifest

abbrev record_contract : CapabilityContract → Option CapabilityContract → KernelAction (Unit {0})
record_contract contract none = stored (record_capability_contract contract)
record_contract contract (some _) = pure tt

-- the rest of `register_capability`, for a capability that the registry does not have
unfoldable pub register_new_capability : Platform → CapabilityContract → KernelAction (Unit {0})
unfolding registry_register
register_new_capability p contract = do
  recorded ← stored (capability_contract contract.capability_id)
  lift (same_contract recorded contract)
  executor ← gets (λ k. lookup contract.capability_id k.executors)
  lift (suits_contract p contract executor)
  recorded_now ← stored (capability_contract contract.capability_id)
  record_contract contract recorded_now
  registry_register p contract

abbrev register_known :
    Platform → CapabilityContract → Option CapabilityContract → KernelAction (Unit {0})
register_known p contract none = register_new_capability p contract
register_known p contract (some existing) = lift (same_contract (some existing) contract)

unfoldable pub register_capability : Platform → CapabilityContract → KernelAction (Unit {0})
unfolding register_new_capability
register_capability p contract = do
  lift (validate_capability_contract p contract)
  existing ← gets (λ k. lookup contract.capability_id k.registry)
  register_known p contract existing

abbrev is_supported : ExecutorIsolation → Bool
is_supported ExecutorIsolation.in_process_trusted = true
is_supported ExecutorIsolation.process_sandbox = true
is_supported _ = false

abbrev suits_executor :
    Platform → Option CapabilityContract → ExecutorManifest → CoreResult (Unit {0})
suits_executor p none manifest = ok tt
suits_executor p (some capability) manifest = validate_executor_manifest p capability manifest

abbrev same_manifest : String → Option ExecutorManifest → ExecutorManifest → CoreResult (Unit {0})
same_manifest message none manifest = ok tt
same_manifest message (some existing) manifest =
    fail_if (existing != manifest) (executor_manifest_mismatch message)

abbrev record_manifest : ExecutorManifest → Option ExecutorManifest → KernelAction (Unit {0})
record_manifest manifest none = stored (record_executor_manifest manifest)
record_manifest manifest (some _) = pure tt

unfoldable pub register_executor : Platform → ExecutorManifest → KernelAction (Unit {0})
register_executor p manifest = do
  raise_if (not (is_supported manifest.isolation))
      (executor_isolation_unsupported manifest.isolation)
  capability ← gets (λ k. lookup manifest.capability_id k.registry)
  lift (suits_executor p capability manifest)
  existing ← gets (λ k. lookup manifest.capability_id k.executors)
  lift (same_manifest "executor registration is immutable for a capability" existing manifest)
  recorded ← stored (executor_manifest manifest.executor_id)
  lift (
      same_manifest "executor manifest does not match recorded executor authority" recorded
        manifest)
  recorded_now ← stored (executor_manifest manifest.executor_id)
  record_manifest manifest recorded_now
  modify (λ k. record k { executors = insert manifest.capability_id manifest k.executors })
