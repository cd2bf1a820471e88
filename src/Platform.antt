-- ===== src/Platform.antt =====
-- The code that the program calls and does not contain: serde_json, sha2 and jsonschema. Its
-- functions are parameters; nothing is assumed of them here. The hashes that the crates make with
-- them follow.

use essence_agent.Base.{ℕ, zero, suc, String, Option, List, [], ◌∷◌}
use essence_agent.Base.Text.{concat}
use essence_agent.Contracts.{CapabilityContract, ExecutorManifest, SandboxInput, LedgerEvent, Value}

pub record Platform : Type 0 where
  -- `hex::encode(Sha256::digest(bytes))`
  pub sha256_hex : String → String
  -- `serde_json::to_vec`, one for each type that the program serialises to hash it
  pub contract_json : CapabilityContract → String
  pub manifest_json : ExecutorManifest → String
  pub input_json : SandboxInput → String
  pub event_json : LedgerEvent → String
  -- the text of a `json!({ ... })` object whose values are texts or, for `none`, null
  pub object_json : List (String × Option String) → String
  -- `JSONSchema::compile(schema)`: the message of its error, if it fails
  pub compile_error : Value → Option String
  -- the messages of `validate(payload)` against a compiled schema, none of them if it passes
  pub validation_errors : Value → Value → List String
  -- the last instant that a `DateTime<Utc>` represents
  pub last_instant : ℕ

-- `hash_json` of moxi-store and of moxi-core
abbrev pub hash_json : Platform → Value → String
hash_json p value = p.sha256_hex value

-- `hash_capability_contract` of moxi-store, `capability_contract_hash` of moxi-core
abbrev pub hash_capability_contract : Platform → CapabilityContract → String
hash_capability_contract p capability = p.sha256_hex (p.contract_json capability)

-- `hash_executor_manifest` of moxi-store, `executor_manifest_hash` of moxi-core
abbrev pub hash_executor_manifest : Platform → ExecutorManifest → String
hash_executor_manifest p manifest = p.sha256_hex (p.manifest_json manifest)

-- `hash_event` of moxi-store
abbrev pub hash_event : Platform → LedgerEvent → String
hash_event p event = p.sha256_hex (p.event_json event)

abbrev take_text : ℕ → String → String
take_text zero s = ""
take_text (suc n) String.[] = ""
take_text (suc n) (String.◌∷◌ c s) = String.◌∷◌ c (take_text n s)

-- `stable_id` of moxi-hotpath and of moxi-swarm: eight bytes of the digest are sixteen digits
unfoldable pub stable_id : (String → String) → String → String → String
stable_id sha256_hex prefix json = concat (prefix ∷ "." ∷ take_text 16 (sha256_hex json) ∷ [])
