-- ===== src/Ingress/Gateway.antt =====
-- crates/moxi-gateway/src/lib.rs: the gateway's checks, its count of requests, and the redaction of a
-- goal. The UUID of a decision is an argument.
use essence_agent.Base.{
  ℕ, ◌+◌, String, Bool, true, false, Option, none, some, List, [], ◌∷◌, ◌++◌, if◌then◌else◌,
  is_empty, contains, string_eq, nat_eq, ◌==◌, ◌&&◌, not, leb, ltb, length, find,
}
use essence_agent.Base.Table.{Table, lookup, insert}
use essence_agent.Base.Text.{codes, concat, join, to_ascii_lowercase, starts_with, contains_text}
use essence_agent.Base.Words.{split_whitespace}
use essence_agent.Base.Outcome.Pure.{Result, ok, err}
use essence_agent.Base.Outcome.Action.{Action}
use essence_agent.Contracts.{RiskLevel, rank, PermissionMode}
use essence_agent.Ingress.Entry.{EntryChannel, EntryIntentCandidate, NormalizedEntry}

pub record Redaction : Type 0 where
  pub marker : String
  pub replacement : String

pub record GatewayDecision : Type 0 where
  pub gateway_decision_id : String
  pub request_id : String
  pub tenant_id : String
  pub user_id : String
  pub allowed : Bool
  pub risk_level : RiskLevel
  pub reasons : List String
  pub redactions : List Redaction

pub data GatewayError : Type 0 where
  denied : GatewayDecision → GatewayError

pub record TrustedEntry : Type 0 where
  pub channel : EntryChannel
  pub request_id : String
  pub session_id : Option String
  pub source_ref : Option String
  pub permission_mode : PermissionMode
  pub candidate : EntryIntentCandidate
  pub gateway_decision : GatewayDecision

pub record GatewayConfig : Type 0 where
  pub allowed_tenants : List String
  pub blocked_users : List String
  pub max_goal_chars : ℕ
  pub max_requests_per_principal : ℕ
  pub blocked_goal_terms : List String
  pub secret_markers : List String

-- `GatewayConfig::default`
abbrev pub default_gateway_config : GatewayConfig
default_gateway_config = record {
  allowed_tenants = [];
  blocked_users = [];
  max_goal_chars = 4_000;
  max_requests_per_principal = 100;
  blocked_goal_terms = "ignore previous instructions" ∷ "bypass policy" ∷ "disable safety" ∷ [];
  secret_markers = "sk-" ∷ "ghp_" ∷ "gho_" ∷ "xoxb-" ∷ [];
}

pub record Gateway : Type 0 where
  pub config : GatewayConfig
  pub request_counts : Table ℕ

-- `Gateway::new`
abbrev pub new_gateway : GatewayConfig → Gateway
new_gateway config = record { config = config; request_counts = [] }

abbrev pub redacted_secret : String
redacted_secret = "[REDACTED_SECRET]"

-- `lowered.starts_with(&marker.to_ascii_lowercase())`
abbrev pub is_marked : String → String → Bool
is_marked word marker =
    starts_with (to_ascii_lowercase (codes word)) (to_ascii_lowercase (codes marker))

-- the word that stands for a word, and what is pushed to `redactions`
abbrev pub redacted_as : String → Option String → String × List Redaction
redacted_as word none = (word, [])
redacted_as word (some marker) =
    (redacted_secret, record { marker = marker; replacement = redacted_secret } ∷ [])

unfoldable pub redact_word : List String → String → String × List Redaction
redact_word markers word = redacted_as word (find (is_marked word) markers)

unfoldable pub redact_words : List String → List String → List String × List Redaction
unfolding redact_word
redact_words markers [] = ([], [])
redact_words markers (word ∷ rest) =
    let first = redact_word markers word in
    let remaining = redact_words markers rest in
    ((first.0) ∷ (remaining.0), (first.1) ++ (remaining.1))

unfoldable pub redact_goal : String → List String → String × List Redaction
unfolding redact_words
redact_goal goal markers =
    let words = redact_words markers (split_whitespace goal) in (join " " (words.0), words.1)

abbrev pub principal : EntryIntentCandidate → String
principal candidate = concat (candidate.tenant_id ∷ ":" ∷ candidate.user_id ∷ [])

-- `entry(principal).or_insert(0)`
abbrev pub or_zero : Option ℕ → ℕ
or_zero none = 0
or_zero (some count) = count

abbrev pub request_count : String → Gateway → ℕ
request_count key gateway = or_zero (lookup key gateway.request_counts)

abbrev pub term_reasons : List ℕ → List String → List String
term_reasons lowered_goal [] = []
term_reasons lowered_goal (term ∷ rest) =
    let remaining = term_reasons lowered_goal rest in
    if contains_text lowered_goal (to_ascii_lowercase (codes term))
    then concat ("goal contains blocked term: " ∷ term ∷ []) ∷ remaining
    else remaining

abbrev pub reason_if : Bool → String → List String
reason_if true reason = reason ∷ []
reason_if false reason = []

module _ (candidate : EntryIntentCandidate) (gateway : Gateway) where
  abbrev pub is_untrusted : Bool
  is_untrusted =
      not (is_empty gateway.config.allowed_tenants)
      && not (contains gateway.config.allowed_tenants candidate.tenant_id)

  abbrev pub is_blocked : Bool
  is_blocked = contains gateway.config.blocked_users candidate.user_id

  abbrev pub is_oversized : Bool
  is_oversized = ltb gateway.config.max_goal_chars (length (codes candidate.goal))

  -- the count has reached the limit
  abbrev pub is_exhausted : Bool
  is_exhausted =
      leb gateway.config.max_requests_per_principal (request_count (principal candidate) gateway)

  -- what is pushed to `reasons`
  unfoldable pub denial_reasons : List String
  denial_reasons =
      reason_if is_untrusted "tenant is not trusted by this gateway"
      ++ (reason_if is_blocked "user is blocked by this gateway"
          ++ (reason_if is_oversized "goal exceeds gateway input size limit"
              ++ (reason_if is_exhausted "principal exceeded gateway request limit"
                  ++ term_reasons (to_ascii_lowercase (codes candidate.goal))
                      gateway.config.blocked_goal_terms)))

-- the count after a request
unfoldable pub counted : EntryIntentCandidate → Gateway → Gateway
counted candidate gateway =
    let count = request_count (principal candidate) gateway in
    record gateway {
      request_counts =
          insert (principal candidate) (if is_exhausted candidate gateway then count else count + 1)
            gateway.request_counts;
    }

-- a goal with a secret in it has at least the medium risk
abbrev pub gateway_risk : List Redaction → RiskLevel → RiskLevel
gateway_risk redactions risk_level =
    if not (is_empty redactions) && ltb (rank risk_level) (rank RiskLevel.medium)
    then RiskLevel.medium
    else risk_level

abbrev pub passed : String
passed = "gateway trust checks passed"

-- `if reasons.is_empty() { reasons.push(..) }`
abbrev pub or_passed : List String → List String
or_passed [] = passed ∷ []
or_passed (reason ∷ rest) = reason ∷ rest

-- `reasons.len() == 1 && reasons[0] == "gateway trust checks passed"`
abbrev pub has_passed : List String → Bool
has_passed (reason ∷ []) = reason == passed
has_passed _ = false

abbrev pub decision_of : String → NormalizedEntry → List String → List Redaction → GatewayDecision
decision_of uuid entry reasons redactions = record {
  gateway_decision_id = concat ("gd_" ∷ uuid ∷ []);
  request_id = entry.request_id;
  tenant_id = entry.candidate.tenant_id;
  user_id = entry.candidate.user_id;
  allowed = has_passed (or_passed reasons);
  risk_level = gateway_risk redactions entry.candidate.risk_level;
  reasons = or_passed reasons;
  redactions = redactions;
}

abbrev pub trusted_entry : NormalizedEntry → String → GatewayDecision → TrustedEntry
trusted_entry entry goal decision = record {
  channel = entry.channel;
  request_id = entry.request_id;
  session_id = entry.session_id;
  source_ref = entry.source_ref;
  permission_mode = entry.permission_mode;
  candidate = record entry.candidate { goal = goal; risk_level = decision.risk_level };
  gateway_decision = decision;
}

-- `Gateway::admit`
unfoldable pub admit : String → NormalizedEntry → Action Gateway GatewayError TrustedEntry
unfolding redact_goal denial_reasons counted
admit uuid entry gateway =
    let reasons = denial_reasons entry.candidate gateway in
    let redacted = redact_goal entry.candidate.goal gateway.config.secret_markers in
    let decision = decision_of uuid entry reasons (redacted.1) in
    (
      if not decision.allowed
          then err (denied decision)
          else ok (trusted_entry entry (redacted.0) decision),
      counted entry.candidate gateway,
    )

-- `admit_entry`: a gateway for one request
unfoldable pub admit_entry : String → NormalizedEntry → Result GatewayError TrustedEntry
unfolding admit
admit_entry uuid entry = (admit uuid entry (new_gateway default_gateway_config)).0
