-- ===== src/Ingress/Entry.antt =====
-- crates/moxi-entry/src/lib.rs: the normalization of a request. The UUID of a request without an id
-- is an argument.
use essence_agent.Base.{
  String, Option, none, some, List, [], ◌∷◌, ◌++◌, if◌then◌else◌, is_empty, contains, string_eq,
}
use essence_agent.Base.Text.{codes, trim_text, concat}
use essence_agent.Base.Outcome.Pure.{Result, ok, err, fail_if, ◌>>=◌, ◌>>◌}
use essence_agent.Contracts.{Budget, RiskLevel, PermissionMode, default_budget}

pub data EntryError : Type 0 where
  missing_field : String → EntryError
  empty_goal empty_capability : EntryError

abbrev pub EntryResult : Type 0 → Type 0
EntryResult = Result EntryError

pub data EntryChannel : Type 0 where
  cli desktop web http_api sdk mcp_server automation : EntryChannel

pub record EntryContext : Type 0 where
  pub channel : EntryChannel
  pub tenant_id : String
  pub user_id : String
  pub workspace_root : String
  pub session_id : Option String
  pub request_id : Option String
  pub source_ref : Option String

pub record EntryRequest : Type 0 where
  pub context : EntryContext
  pub goal : String
  pub requested_capabilities : List String
  pub risk_level : RiskLevel
  pub permission_mode : PermissionMode
  pub budget : Budget

-- `EntryRequest::new`
abbrev pub new_request : EntryChannel → String → String → String → String → EntryRequest
new_request channel tenant_id user_id workspace_root goal = record {
  context = record {
    channel = channel;
    tenant_id = tenant_id;
    user_id = user_id;
    workspace_root = workspace_root;
    session_id = none;
    request_id = none;
    source_ref = none;
  };
  goal = goal;
  requested_capabilities = [];
  risk_level = RiskLevel.low;
  permission_mode = PermissionMode.read_only;
  budget = default_budget;
}

pub record EntryIntentCandidate : Type 0 where
  pub tenant_id : String
  pub user_id : String
  pub goal : String
  pub requested_capabilities : List String
  pub risk_level : RiskLevel
  pub workspace_root : String
  pub budget : Budget

pub record NormalizedEntry : Type 0 where
  pub channel : EntryChannel
  pub request_id : String
  pub session_id : Option String
  pub source_ref : Option String
  pub permission_mode : PermissionMode
  pub candidate : EntryIntentCandidate

unfoldable pub require_non_empty : String → String → EntryResult (Unit {0})
require_non_empty field value = fail_if (is_empty (codes (trim_text value))) (missing_field field)

unfoldable pub trimmed_required_goal : String → EntryResult String
trimmed_required_goal goal =
    if is_empty (codes (trim_text goal)) then err empty_goal else ok (trim_text goal)

-- `if !normalized.iter().any(..) { normalized.push(..) }`
abbrev pub push_new : List String → String → List String
push_new normalized capability =
    if contains normalized capability then normalized else normalized ++ capability ∷ []

-- the loop of `normalize_capabilities` and of `compile_capabilities`, with the error of either
unfoldable pub push_trimmed : {E : Type 0} → E → List String → List String → Result E (List String)
push_trimmed empty normalized [] = ok normalized
push_trimmed empty normalized (capability ∷ rest) =
    let remaining = push_trimmed empty (push_new normalized (trim_text capability)) rest in
    if is_empty (codes (trim_text capability)) then err empty else remaining

unfoldable pub normalize_capabilities : List String → EntryResult (List String)
unfolding push_trimmed
normalize_capabilities = push_trimmed empty_capability []

abbrev request_id_or_new : String → Option String → String
request_id_or_new uuid (some request_id) = request_id
request_id_or_new uuid none = concat ("entry_" ∷ uuid ∷ [])

abbrev pub entry_for : String → EntryRequest → String → List String → NormalizedEntry
entry_for uuid request goal requested_capabilities = record {
  channel = request.context.channel;
  request_id = request_id_or_new uuid request.context.request_id;
  session_id = request.context.session_id;
  source_ref = request.context.source_ref;
  permission_mode = request.permission_mode;
  candidate = record {
    tenant_id = request.context.tenant_id;
    user_id = request.context.user_id;
    goal = goal;
    requested_capabilities = requested_capabilities;
    risk_level = request.risk_level;
    workspace_root = request.context.workspace_root;
    budget = request.budget;
  };
}

-- `EntryAdapter::normalize`
unfoldable pub normalize : String → EntryRequest → EntryResult NormalizedEntry
unfolding require_non_empty trimmed_required_goal normalize_capabilities
normalize uuid request = do
  require_non_empty "tenant_id" request.context.tenant_id
  require_non_empty "user_id" request.context.user_id
  require_non_empty "workspace_root" request.context.workspace_root
  goal ← trimmed_required_goal request.goal
  requested_capabilities ← normalize_capabilities request.requested_capabilities
  ok (entry_for uuid request goal requested_capabilities)
