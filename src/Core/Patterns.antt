-- ===== src/Core/Patterns.antt =====
-- Patterns of capabilities and resources, and what a permission mode lets a resource do.
use essence_agent.Base.{
  String, Bool, true, false, Option, none, some, List, [], ◌∷◌, any, find, is_empty, not, ◌&&◌,
  ◌||◌, if◌then◌else◌,
}
use essence_agent.Base.Text.{
  Codes, codes, concat, trim, to_ascii_lowercase, starts_with, ends_with, contains_text, strip_last,
  same_text,
}
use essence_agent.Contracts.{PermissionMode}

-- on code points; `value` is the first pattern's text to match, already in lower case
abbrev matches_lowered : Codes → Codes → Bool
matches_lowered pattern value =
    if is_empty pattern
    then false
    else if same_text pattern (codes "*")
    then true
    else elim (strip_last b'*' pattern) [
      | some prefix ↦ starts_with value prefix
      | none ↦ same_text value pattern
    ]

unfoldable pub exact_or_prefix_pattern_matches : Codes → Codes → Bool
exact_or_prefix_pattern_matches pattern value =
    matches_lowered (to_ascii_lowercase (trim pattern)) (to_ascii_lowercase value)

unfoldable pub resource_pattern_matches : Codes → Codes → Bool
resource_pattern_matches pattern resource =
    let pattern' = to_ascii_lowercase (trim pattern) in
    if is_empty pattern'
    then false
    else exact_or_prefix_pattern_matches pattern' resource
      || contains_text (to_ascii_lowercase resource) pattern'

unfoldable pub capability_rule_matches : List String → String → Bool
capability_rule_matches patterns capability_id =
    any (λ pattern. exact_or_prefix_pattern_matches (codes pattern) (codes capability_id)) patterns

unfoldable pub first_matching_resource : List String → List String → Option String
first_matching_resource patterns resources =
    find
      (λ resource.
        any (λ pattern. resource_pattern_matches (codes pattern) (codes resource)) patterns)
      resources

unfoldable pub is_read_resource : Codes → Bool
is_read_resource resource =
    ends_with resource (codes ".read")
    || same_text resource (codes "workspace.read")
    || same_text resource (codes "memory.read")

unfoldable pub is_network_resource : Codes → Bool
is_network_resource resource = contains_text resource (codes "network")

unfoldable pub is_shell_resource : Codes → Bool
is_shell_resource resource = contains_text resource (codes "shell")

unfoldable pub is_privileged_resource : Codes → Bool
is_privileged_resource resource =
    contains_text resource (codes "credential") || contains_text resource (codes "privileged")

abbrev mode_allows : PermissionMode → Codes → Bool
mode_allows PermissionMode.read_only resource = is_read_resource resource
mode_allows PermissionMode.workspace_write resource =
    not (is_network_resource resource)
    && not (is_shell_resource resource)
    && not (is_privileged_resource resource)
mode_allows PermissionMode.networked resource =
    not (is_shell_resource resource) && not (is_privileged_resource resource)
mode_allows PermissionMode.privileged resource = true

unfoldable pub permission_mode_allows_resource : PermissionMode → String → Bool
permission_mode_allows_resource mode resource =
    mode_allows mode (to_ascii_lowercase (codes resource))

unfoldable pub permission_mode_name : PermissionMode → String
permission_mode_name PermissionMode.read_only = "read_only"
permission_mode_name PermissionMode.workspace_write = "workspace_write"
permission_mode_name PermissionMode.networked = "networked"
permission_mode_name PermissionMode.privileged = "privileged"

abbrev denial : PermissionMode → Option String → Option String
denial mode none = none
denial mode (some resource) =
    some
      (concat ("permission mode " ∷ permission_mode_name mode ∷ " does not allow " ∷ resource ∷ []))

unfoldable pub permission_mode_denial : PermissionMode → List String → Option String
permission_mode_denial mode resources =
    denial mode (find (λ resource. not (permission_mode_allows_resource mode resource)) resources)
