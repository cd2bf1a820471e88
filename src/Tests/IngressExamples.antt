-- ===== src/Tests/IngressExamples.antt =====
-- One request on its way into the kernel, and the theorems about that way applied to it.
use essence_agent.Base
use essence_agent.Base.{
  ℕ, ◌≤◌, ◌+◌, string_eq, String, Bool, true, false, ◌≡◌, ◌⊎◌, refl, some, none, List, [], ◌∷◌, map,
  any, not, All, is_empty, contains, arith,
}
use essence_agent.Base.Text
use essence_agent.Base.Text.{trim_text}
use essence_agent.Base.Words.{split_whitespace}
use essence_agent.Base.Outcome.Pure.{ok, err}
use essence_agent.Ingress.Entry.{
  EntryIntentCandidate, EntryRequest, EntryChannel, NormalizedEntry, new_request, entry_for,
  normalize_capabilities, empty_capability,
}
use essence_agent.Ingress.Gateway.{
  Gateway, TrustedEntry, default_gateway_config, new_gateway, trusted_entry, decision_of, Redaction,
  redacted_secret, redact_goal, admit, denied, principal,
}
use essence_agent.Ingress.Intent.{compile_capabilities}
use essence_agent.Ingress.Capabilities.{
  IsClean, IsDistinct, is_blank, normalize_capabilities_lem, compile-normalize_capabilities,
}
use essence_agent.Ingress.Reading.{Requires}
use essence_agent.Ingress.Redaction.{Becomes, redact_goal_lem}
use essence_agent.Ingress.Admission.{Admits, admit_iff, decision, redacted_goal}
use essence_agent.Ingress.Limits.{admitted, admitted-le}

abbrev asked : List String
asked = " file.read" ∷ "file.read" ∷ []

abbrev gathered : List String
gathered = "file.read" ∷ []

abbrev request : EntryRequest
request = record (new_request EntryChannel.cli "t" "u" "/w" " show  SK-1 ") {
  requested_capabilities = asked;
}

abbrev entry : NormalizedEntry
entry = entry_for "1" request "show  SK-1" gathered

abbrev gateway : Gateway
gateway = new_gateway default_gateway_config

abbrev found : List Redaction
found = record { marker = "sk-"; replacement = redacted_secret } ∷ []

abbrev trusted : TrustedEntry
trusted = trusted_entry entry "show [REDACTED_SECRET]" (decision_of "2" entry [] found)

gathers : normalize_capabilities asked ≡ ok gathered
unfolding normalize_capabilities trim_text Text.is_whitespace Base.nat_eq Base.string_eq
gathers = refl

normalize_capabilities_lem_example :
    ((list : List String) × (normalize_capabilities asked ≡ ok list)
      × (any is_blank asked ≡ false)
      × All IsClean list
      × IsDistinct list
      × ((c : String) → contains list c ≡ contains (map trim_text asked) c))
    ⊎ ((normalize_capabilities asked ≡ err empty_capability) × (any is_blank asked ≡ true))
normalize_capabilities_lem_example = normalize_capabilities_lem asked

compile-normalize_capabilities_example :
    (normalize_capabilities gathered ≡ ok gathered)
    × ((required : List String) × (compile_capabilities gathered "show" ≡ ok required)
        × Requires gathered "show" required)
compile-normalize_capabilities_example =
    compile-normalize_capabilities asked gathered "show" gathers

abbrev markers : List String
markers = "sk-" ∷ "ghp_" ∷ []

redact_goal_lem_example :
    Becomes markers
      (split_whitespace "show  SK-1")
      (split_whitespace (redact_goal "show  SK-1" markers).0)
      (redact_goal "show  SK-1" markers).1
redact_goal_lem_example = redact_goal_lem markers "show  SK-1"

admit_iff_example :
    (Admits gateway entry.candidate
      × ((admit "2" entry gateway).0
          ≡ ok (
              trusted_entry entry (redacted_goal "2" entry gateway).0 (decision "2" entry gateway)))
      × ((decision "2" entry gateway).allowed ≡ true))
    ⊎ ((¬ Admits gateway entry.candidate)
        × ((admit "2" entry gateway).0 ≡ err (denied (decision "2" entry gateway)))
        × ((decision "2" entry gateway).allowed ≡ false)
        × (is_empty (decision "2" entry gateway).reasons ≡ false))
admit_iff_example = admit_iff "2" entry gateway

admitted-le_example : admitted "t:u" (("2", entry) ∷ ("3", entry) ∷ []) gateway ≤ 100
admitted-le_example = admitted-le default_gateway_config "t:u" (("2", entry) ∷ ("3", entry) ∷ [])

-- the redaction closes the gap in a blocked term, which then stands in the trusted goal
abbrev split_term : NormalizedEntry
split_term = entry_for "1" request "bypass  policy" []

split_term_passes :
    (admit "2" split_term gateway).0
    ≡ ok (trusted_entry split_term "bypass policy" (decision_of "2" split_term [] []))
unfolding admit Text.to_ascii_lowercase Base.nat_eq Base.string_eq split_whitespace
    Text.is_whitespace
split_term_passes = refl

-- two principals of one key
abbrev first_principal : EntryIntentCandidate
first_principal = record entry.candidate { tenant_id = "a:b"; user_id = "c" }

abbrev second_principal : EntryIntentCandidate
second_principal = record entry.candidate { tenant_id = "a"; user_id = "b:c" }

same_principal : principal first_principal ≡ principal second_principal
same_principal = refl
