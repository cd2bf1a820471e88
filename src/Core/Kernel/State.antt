-- ===== src/Core/Kernel/State.antt =====
-- The state of `Kernel`, and its calls of the store.
use essence_agent.Base.{ℕ, ◌+◌, ◌-◌, ◌^◌, String, Option, none, some, leb, ltb, if◌then◌else◌}
use essence_agent.Base.Table.{Table, lookup}
use essence_agent.Base.Outcome.Pure.{Result, ok, err}
use essence_agent.Base.Outcome.Action.{Action}
use essence_agent.Contracts.{PolicyConfig, RunContract, CapabilityContract, ExecutorManifest}
use essence_agent.Platform.{Platform}
use essence_agent.Store.{Store, StoreError, StoreAction}
use essence_agent.Core.Errors
use essence_agent.Core.Errors.{CoreError}

pub record Kernel : Type 0 where
  pub actor_id : String
  -- `CapabilityRegistry`
  pub registry : Table CapabilityContract
  -- the manifest of each `ExecutorRegistration`, by capability
  pub executors : Table ExecutorManifest
  pub runs : Table RunContract
  -- `PolicyEngine`
  pub policy_config : PolicyConfig
  pub store : Store

abbrev pub KernelAction : Type 0 → Type 0
KernelAction A = Action Kernel CoreError A

abbrev pub with_store :
    {A : Type 0} → Kernel → Result StoreError A × Store → Result CoreError A × Kernel
with_store k (ok a, s) = (ok a, record k { store = s })
with_store k (err e, s) = (err (Errors.store e), record k { store = s })

-- `self.store.method(...)?`
abbrev pub stored : {A : Type 0} → StoreAction A → KernelAction A
stored m k = with_store k (m k.store)

-- `CapabilityRegistry::get`
unfoldable pub capability : String → Kernel → Option CapabilityContract
capability capability_id k = lookup capability_id k.registry

-- `DateTime::checked_add_signed` of a duration that is not negative
abbrev pub checked_add : Platform → ℕ → ℕ → Option ℕ
checked_add p instant ms = if leb (instant + ms) p.last_instant then some (instant + ms) else none

-- `instant + Duration::milliseconds(ms as i64)` for a u64: from 2^63 on the cast is negative
unfoldable pub add_timeout : Platform → ℕ → ℕ → Option ℕ
add_timeout p instant ms =
    if ltb ms (2 ^ 63)
    then checked_add p instant ms
    else if leb (2 ^ 64 - ms) instant
    then some (instant - (2 ^ 64 - ms))
    else none
