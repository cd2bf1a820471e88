-- ===== src/Ingress/Admission.antt =====
-- Which requests `Gateway::admit` of moxi-gateway lets through, and how many of one principal.
use Prim.Native.Char.{code}
use Prim.Native.String
use Prim.Native.String.append
use essence_agent.Base.{
  ℕ, ◌≤◌, ◌<◌, String, Bool, true, false, ◌≡◌, ◌⊎◌, ◌↔◌, inl, inr, refl, sym, ap, ◌∙◌, List, [],
  ◌∷◌, ◌++◌, arith, All, is_empty, contains, string_eq, ◌==◌, ==_iff, length, Bool-cases, nat_eq,
  not, ◌&&◌,
}
use essence_agent.Base.Text.{codes, concat, to_ascii_lowercase, contains_text}
use essence_agent.Base.Outcome.Pure.{ok, err}
use essence_agent.Ingress.Entry.{EntryIntentCandidate, NormalizedEntry}
use essence_agent.Ingress.Gateway.{
  Gateway, GatewayDecision, denied, principal, request_count, term_reasons, denial_reasons,
  reason_if, is_untrusted, is_blocked, is_oversized, is_exhausted, passed, or_passed, has_passed,
  decision_of, trusted_entry, redact_goal, admit, Redaction,
}

-- The text has a blocked term, in whatever case.
abbrev pub has_term : String → String → Bool
has_term goal term =
    contains_text (to_ascii_lowercase (codes goal)) (to_ascii_lowercase (codes term))

-- What the gateway asks of a request.
pub record Admits (gateway : Gateway) (candidate : EntryIntentCandidate) : Type 0 where
  pub tenant :
      (is_empty gateway.config.allowed_tenants ≡ true)
      ⊎ (contains gateway.config.allowed_tenants candidate.tenant_id ≡ true)
  pub user : contains gateway.config.blocked_users candidate.user_id ≡ false
  pub size : length (codes candidate.goal) ≤ gateway.config.max_goal_chars
  pub below_limit :
      request_count (principal candidate) gateway < gateway.config.max_requests_per_principal
  pub terms : All (λ term. has_term candidate.goal term ≡ false) gateway.config.blocked_goal_terms

second : String → ℕ
second (String.◌∷◌ c (String.◌∷◌ d s)) = code d
second _ = 0

second_of_term : (t : String) → second (String.◌++◌ "goal contains blocked term: " t) ≡ 111
unfolding second
second_of_term t = ap second (
    (λ i. append.cons "g" "oal contains blocked term: " t i)
    ∙ ap (String.◌∷◌ "g") (λ i. append.cons "o" "al contains blocked term: " t i))

term_not_passed :
    (term : String) → (concat ("goal contains blocked term: " ∷ term ∷ []) == passed) ≡ false
unfolding second
term_not_passed term =
    elim (Bool-cases (concat ("goal contains blocked term: " ∷ term ∷ []) == passed)) [
      | inl same ↦ absurd (
          ground (
            arith,
            sym (second_of_term (String.◌++◌ term "")) ∙ ap second ((==_iff _ passed).0 same),
          ))
      | inr differ ↦ differ
    ]

abbrev IsOther : String → Type 0
IsOther reason = (reason == passed) ≡ false

module _ (test : Bool) (reason : String) (rest : List String) where
  others_behind : IsOther reason → All IsOther rest → All IsOther (reason_if test reason ++ rest)
  others_behind other all = elim (Bool-cases test) [
    | inl given ↦ rw given (other, all)
    | inr absent ↦ rw absent all
  ]

  none_behind : is_empty (reason_if test reason ++ rest) ≡ (not test && is_empty rest)
  none_behind = ground arith

others_terms : (lowered : List ℕ) (terms : List String) → All IsOther (term_reasons lowered terms)
others_terms lowered [] = tt
others_terms lowered (term ∷ rest) =
    elim (Bool-cases (contains_text lowered (to_ascii_lowercase (codes term)))) [
      | inl inside ↦ rw inside (term_not_passed term, others_terms lowered rest)
      | inr outside ↦ rw outside (others_terms lowered rest)
    ]

passed_iff :
    (reasons : List String)
    → All IsOther reasons
    → has_passed (or_passed reasons) ≡ is_empty reasons
unfolding string_eq
passed_iff [] all = refl
passed_iff (reason ∷ []) (other, all) = other
passed_iff (reason ∷ another ∷ rest) all = refl

no_terms :
    (goal : String) (terms : List String)
    → (is_empty (term_reasons (to_ascii_lowercase (codes goal)) terms) ≡ true)
      ↔ All (λ term. has_term goal term ≡ false) terms
no_terms goal [] = (λ h. tt, λ h. refl)
no_terms goal (term ∷ rest) = elim (Bool-cases (has_term goal term)) [
  | inl inside ↦
      (λ h. absurd (ground (arith, inside, h)), λ h. absurd (ground (arith, inside, h.0)))
  | inr outside ↦ (
    λ h. (outside, (no_terms goal rest).0 (ground (arith, outside, h))),
    λ h. ground (arith, outside, (no_terms goal rest).1 h.1),
  )
]

module _ (candidate : EntryIntentCandidate) (gateway : Gateway) where
  abbrev terms_found : List String
  terms_found =
      term_reasons (to_ascii_lowercase (codes candidate.goal)) gateway.config.blocked_goal_terms

  abbrev from_limit : List String
  from_limit =
      reason_if (is_exhausted candidate gateway) "principal exceeded gateway request limit"
      ++ terms_found

  abbrev from_size : List String
  from_size =
      reason_if (is_oversized candidate gateway) "goal exceeds gateway input size limit"
      ++ from_limit

  abbrev from_user : List String
  from_user =
      reason_if (is_blocked candidate gateway) "user is blocked by this gateway" ++ from_size

  others : All IsOther (denial_reasons candidate gateway)
  unfolding denial_reasons string_eq
  others =
      others_behind (is_untrusted candidate gateway) "tenant is not trusted by this gateway"
        from_user refl
        (others_behind (is_blocked candidate gateway) "user is blocked by this gateway" from_size
          refl
          (others_behind (is_oversized candidate gateway) "goal exceeds gateway input size limit"
            from_limit refl
            (others_behind (is_exhausted candidate gateway)
              "principal exceeded gateway request limit" terms_found refl
              (others_terms (to_ascii_lowercase (codes candidate.goal))
                gateway.config.blocked_goal_terms))))

  none_given : is_empty (denial_reasons candidate gateway) ≡ (
      not (is_untrusted candidate gateway)
      && not (is_blocked candidate gateway)
      && not (is_oversized candidate gateway)
      && not (is_exhausted candidate gateway)
      && is_empty terms_found)
  unfolding denial_reasons
  none_given = ground (
    arith,
    none_behind (is_untrusted candidate gateway) "tenant is not trusted by this gateway" from_user,
    none_behind (is_blocked candidate gateway) "user is blocked by this gateway" from_size,
    none_behind (is_oversized candidate gateway) "goal exceeds gateway input size limit" from_limit,
    none_behind (is_exhausted candidate gateway) "principal exceeded gateway request limit"
        terms_found,
  )

  Admits-of_none : is_empty (denial_reasons candidate gateway) ≡ true → Admits gateway candidate
  Admits-of_none h =
      let terms = no_terms candidate.goal gateway.config.blocked_goal_terms in
      record {
        tenant = ground (arith, none_given, h);
        user = ground (arith, none_given, h);
        size = ground (arith, none_given, h);
        below_limit = ground (arith, none_given, h);
        terms = terms.0 (ground (arith, none_given, h));
      }

  none_of_Admits : Admits gateway candidate → is_empty (denial_reasons candidate gateway) ≡ true
  none_of_Admits a =
      none_given
      ∙ ground (
        arith,
        a.tenant,
        a.user,
        a.size,
        a.below_limit,
        (no_terms candidate.goal gateway.config.blocked_goal_terms).1 a.terms,
      )

or_passed_given : (reasons : List String) → is_empty (or_passed reasons) ≡ false
or_passed_given [] = refl
or_passed_given (reason ∷ rest) = refl

module _ (uuid : String) (entry : NormalizedEntry) (gateway : Gateway) where
  abbrev pub redacted_goal : String × List Redaction
  redacted_goal = redact_goal entry.candidate.goal gateway.config.secret_markers

  abbrev pub decision : GatewayDecision
  decision = decision_of uuid entry (denial_reasons entry.candidate gateway) (redacted_goal.1)

  -- The gateway lets a request through exactly where it asks nothing more of it: the tenant is one
  -- of those that are allowed, if any are named, the user is not blocked, the goal is not longer than
  -- the limit, the principal is below its limit, and no blocked term stands in the goal, in whatever
  -- case. The entry then has the goal redacted and the decision's risk. Any other request is
  -- denied, with at least one reason.
  pub admit_iff :
      (Admits gateway entry.candidate
        × ((admit uuid entry gateway).0 ≡ ok (trusted_entry entry (redacted_goal.0) decision))
        × (decision.allowed ≡ true))
      ⊎ ((¬ Admits gateway entry.candidate)
          × ((admit uuid entry gateway).0 ≡ err (denied decision))
          × (decision.allowed ≡ false)
          × (is_empty decision.reasons ≡ false))
  unfolding admit
  admit_iff =
      let allowed =
        passed_iff (denial_reasons entry.candidate gateway) (others entry.candidate gateway) in
      elim (Bool-cases (is_empty (denial_reasons entry.candidate gateway))) [
        | inl clear ↦ inl (
          Admits-of_none entry.candidate gateway clear,
          ground (arith, allowed, clear),
          allowed ∙ clear,
        )
        | inr refused ↦ inr (
          λ a. ground (arith, none_of_Admits entry.candidate gateway a, refused),
          ground (arith, allowed, refused),
          allowed ∙ refused,
          or_passed_given (denial_reasons entry.candidate gateway),
        )
      ]
