-- ===== src/Ingress/Intent.antt =====
-- crates/moxi-intent/src/lib.rs: the intent that a trusted entry is compiled to. The UUID is an
-- argument.
use essence_agent.Base.{
  String, Bool, some, List, [], ◌∷◌, if◌then◌else◌, is_empty, any, ◌&&◌, ◌||◌, not, max,
}
use essence_agent.Base.Text.{codes, trim_text, concat, to_ascii_lowercase, contains_text}
use essence_agent.Base.Outcome.Pure.{Result, ok, err, fail_if, ◌>>=◌, ◌>>◌}
use essence_agent.Contracts.{Budget, Intent, PermissionMode, RiskLevel}
use essence_agent.Core.Policy.{max_risk}
use essence_agent.Ingress.Entry.{push_trimmed}
use essence_agent.Ingress.Gateway.{TrustedEntry}

pub data IntentCompilerError : Type 0 where
  gateway_denied : String → IntentCompilerError
  empty_goal empty_capability : IntentCompilerError

abbrev pub IntentCompilerResult : Type 0 → Type 0
IntentCompilerResult = Result IntentCompilerError

pub record CompiledIntent : Type 0 where
  pub request_id : String
  pub gateway_decision_ref : String
  pub permission_mode : PermissionMode
  pub intent : Intent

unfoldable pub normalized_goal : String → IntentCompilerResult String
normalized_goal goal =
    if is_empty (codes (trim_text goal)) then err empty_goal else ok (trim_text goal)

unfoldable pub looks_like_file_read : String → Bool
looks_like_file_read goal =
    let lowered = to_ascii_lowercase (codes goal) in
    contains_text lowered (codes "read")
    || contains_text lowered (codes "open")
    || contains_text lowered (codes "show")
    || contains_text lowered (codes "inspect")

-- `if requested.is_empty() && looks_like_file_read(goal) { requested.push("file.read") }`
abbrev pub or_file_read : List String → String → List String
or_file_read requested goal =
    if is_empty requested && looks_like_file_read goal then "file.read" ∷ [] else requested

unfoldable pub compile_capabilities : List String → String → IntentCompilerResult (List String)
compile_capabilities requested goal = push_trimmed empty_capability [] (or_file_read requested goal)

unfoldable pub inferred_goal_risk : String → List String → RiskLevel
inferred_goal_risk goal capabilities =
    let lowered = to_ascii_lowercase (codes goal) in
    if contains_text lowered (codes "delete")
      || contains_text lowered (codes "overwrite")
      || contains_text lowered (codes "execute")
      || any
          (λ capability.
            contains_text (codes capability) (codes "write")
            || contains_text (codes capability) (codes "shell"))
          capabilities
    then RiskLevel.high
    else if contains_text lowered (codes "network")
        || contains_text lowered (codes "http")
        || any (λ capability. contains_text (codes capability) (codes "network")) capabilities
    then RiskLevel.medium
    else RiskLevel.low

unfoldable pub normalized_budget : Budget → Budget
normalized_budget budget = record {
  max_steps = max budget.max_steps 1;
  max_heartbeats = max budget.max_heartbeats 1;
  max_tool_calls = max budget.max_tool_calls 1;
  max_cost_cents = budget.max_cost_cents;
  timeout_ms = max budget.timeout_ms 1;
}

abbrev pub intent_of : String → TrustedEntry → String → List String → CompiledIntent
intent_of uuid entry goal requested_capabilities = record {
  request_id = entry.request_id;
  gateway_decision_ref = entry.gateway_decision.gateway_decision_id;
  permission_mode = entry.permission_mode;
  intent = record {
    intent_id = concat ("intent_" ∷ uuid ∷ []);
    tenant_id = entry.candidate.tenant_id;
    user_id = entry.candidate.user_id;
    gateway_decision_ref = some entry.gateway_decision.gateway_decision_id;
    goal = goal;
    requested_capabilities = requested_capabilities;
    risk_level =
        max_risk entry.candidate.risk_level (inferred_goal_risk goal requested_capabilities);
    workspace_root = entry.candidate.workspace_root;
    budget = normalized_budget entry.candidate.budget;
  };
}

-- `IntentCompiler::compile`
unfoldable pub compile : String → TrustedEntry → IntentCompilerResult CompiledIntent
unfolding normalized_goal compile_capabilities
compile uuid entry = do
  fail_if (not entry.gateway_decision.allowed)
      (gateway_denied entry.gateway_decision.gateway_decision_id)
  goal ← normalized_goal entry.candidate.goal
  requested_capabilities ← compile_capabilities entry.candidate.requested_capabilities goal
  ok (intent_of uuid entry goal requested_capabilities)
