-- ===== src/Tests/World.antt =====
-- A concrete world: readable hashes, one capability with its executor, and an approving operator.
use essence_agent.Base.{String, true, false, Option, none, some, List, [], ◌∷◌}
use essence_agent.Base.Outcome.Pure.{ok}
use essence_agent.Base.Text.{concat}
use essence_agent.Contracts.{
  RiskLevel, ResourceType, DeltaState, ExecutorIsolation, default_policy_config, Intent, WorldDelta,
  CapabilityContract, ExecutorManifest, SandboxInput, SandboxResult, ExecutionTicket,
}
use essence_agent.Platform.{Platform, hash_capability_contract}
use essence_agent.Store.{empty_store}
use essence_agent.Core.Kernel.{Kernel, Executors}

abbrev texts : List (String × Option String) → List String
texts [] = []
texts ((key, none) ∷ rest) = key ∷ "-" ∷ texts rest
texts ((key, some value) ∷ rest) = key ∷ value ∷ texts rest

-- a hash is its preimage, and every schema accepts every value
abbrev pub plain : Platform
plain = record {
  sha256_hex = λ text. concat ("h:" ∷ text ∷ []);
  contract_json = λ contract. contract.capability_id;
  manifest_json = λ manifest. manifest.executor_id;
  input_json = λ input. input.payload;
  event_json = λ event. concat (event.ledger_event_id ∷ event.previous_event_hash ∷ []);
  object_json = λ fields. concat (texts fields);
  compile_error = λ schema. none;
  validation_errors = λ schema payload. [];
  last_instant = 1000000;
}

abbrev pub reader : CapabilityContract
reader = record {
  capability_id = "file.read";
  capability_version = "1";
  provider = "core";
  provider_identity = "core-team";
  manifest_ref = none;
  signature_ref = none;
  input_schema = "{}";
  output_schema = "{}";
  error_schema = "{}";
  permissions = record { resources = "workspace.read" ∷ []; denied = [] };
  sandbox_profile = "local";
  risk_level = RiskLevel.high;
  timeout_ms = 500;
  retry_policy = record { max_retries = 0; retry_non_idempotent = false };
  audit_required = true;
  proof_required = true;
  rollback_required = false;
}

abbrev pub reading : ExecutorManifest
reading = record {
  executor_id = "reader-1";
  capability_id = "file.read";
  capability_contract_hash = hash_capability_contract plain reader;
  provider_identity = "core-team";
  executor_version = "1";
  artifact_hash = "sha256:0123456789abcdef0123456789abcdef0123456789abcdef0123456789abcdef";
  signing_key_ref = "key-1";
  isolation = ExecutorIsolation.process_sandbox;
  sandbox_profile = "local";
  manifest_ref = none;
  signature_ref = some "sig-1";
  attestation_ref = none;
}

abbrev pub intent : Intent
intent = record {
  intent_id = "intent-1";
  tenant_id = "tenant";
  user_id = "user";
  gateway_decision_ref = none;
  goal = "read a file";
  requested_capabilities = "file.read" ∷ [];
  risk_level = RiskLevel.low;
  workspace_root = "/w";
  budget = record {
    max_steps = 5;
    max_heartbeats = 5;
    max_tool_calls = 2;
    max_cost_cents = 0;
    timeout_ms = 10000;
  };
}

abbrev pub delta : WorldDelta
delta = record {
  delta_id = "delta-1";
  run_id = "run_1";
  proposed_by = "planner";
  capability_id = "file.read";
  state = DeltaState.draft;
  target = record { resource_type = ResourceType.file; resource_ref = "a.txt" };
  change_summary = "none";
  preconditions = [];
  patch_ref = none;
  evidence_refs = [];
  risk_level = RiskLevel.low;
  rollback_plan_ref = none;
}

abbrev pub input : SandboxInput
input = record { capability_id = "file.read"; payload = "{a.txt}"; runtime_metadata = none }

-- what the executor answers
abbrev pub answer : ExecutionTicket → SandboxResult
answer ticket = record {
  ticket_id = ticket.ticket_id;
  run_id = ticket.run_id;
  capability_id = ticket.capability_id;
  policy_decision_ref = "";
  capability_contract_ref = "";
  capability_contract_hash = "";
  executor_ref = "";
  executor_version = "";
  executor_artifact_hash = "";
  executor_signature_ref = "";
  executor_signing_key_ref = "";
  executor_manifest_hash = "";
  gateway_decision_ref = none;
  input_hash = "";
  success = true;
  output = "{text}";
  error = none;
  started_at = 40;
  finished_at = 41;
  output_hash = "";
}

abbrev pub executors : Executors
executors manifest ticket request = ok (answer ticket)

abbrev pub kernel : Kernel
kernel = record {
  actor_id = "kernel";
  registry = [];
  executors = [];
  runs = [];
  policy_config = default_policy_config;
  store = empty_store;
}
