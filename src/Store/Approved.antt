-- ===== src/Store/Approved.antt =====
-- `verify_policy_allows` against the policy decision and the grants of the store.
use essence_agent.Base.{
  ◌≡◌, refl, subst, inl, inr, Bool, true, false, List, [], ◌∷◌, arith, ◌==◌, ==_iff, string_eq, any,
  keep, map, ◌||◌, Bool-cases,
}
use mathlib.Core.List.{Memᴰ}
use mathlib.Core.List.Memᴰ.{head, tail}
use essence_agent.Base.Outcome.Pure.{ok}
use essence_agent.Contracts.{LedgerEvent, PolicyDecision, Decision, Decision-eq, ApprovalGrant}
use essence_agent.Store.{
  Store, approval_grants_for_policy_decision, grant_of_row, AuditReplayReport, verify_policy_allows,
  approval_grant_matches_event,
}
use essence_agent.Store.Evidence.{grant_iff}
use essence_agent.Store.Account.{IsApproved, Allows}

or_true : (b : Bool) → (b || true) ≡ true
or_true true = refl
or_true false = refl

module _ {A : Type 0} where
  any-keep :
      (p q : A → Bool) (xs : List A)
      → any p (keep q xs) ≡ true
      → (x : A) × Memᴰ x xs × (q x ≡ true) × (p x ≡ true)
  any-keep p q [] h = cc
  any-keep p q (x ∷ xs) h = elim (Bool-cases (q x)) [
    | inr dropped ↦ let (y, m, a, b) = any-keep p q xs (rw dropped at h) in (y, tail m, a, b)
    | inl taken ↦ elim (Bool-cases (p x)) [
      | inl passes ↦ (x, head refl, taken, passes)
      | inr fails ↦
          let (y, m, a, b) = any-keep p q xs (rw fails at (rw taken at h)) in (y, tail m, a, b)
    ]
  ]

  keep-any :
      (p q : A → Bool) {x : A} (xs : List A)
      → Memᴰ x xs
      → q x ≡ true
      → p x ≡ true
      → any p (keep q xs) ≡ true
  keep-any p q [] m a b = elim m [ ]
  keep-any p q (y ∷ xs) (head e) a b =
      rw (subst (λ z. q z ≡ true) e a) (rw (subst (λ z. p z ≡ true) e b) refl)
  keep-any p q (y ∷ xs) (tail m) a b = elim (Bool-cases (q y)) [
    | inr dropped ↦ rw dropped (keep-any p q xs m a b)
    | inl taken ↦ rw taken (rw (keep-any p q xs m a b) (or_true (p y)))
  ]

module _ (s : Store) (event : LedgerEvent) (policy : PolicyDecision) where
  abbrev approved : Bool
  approved = any (approval_grant_matches_event event) (
      keep (λ grant. grant.policy_decision_ref == policy.decision_id)
        (map grant_of_row s.approval_grants))

  approved-IsApproved : approved ≡ true → IsApproved s event policy
  approved-IsApproved h =
      let (grant, recorded, own, fits) =
        any-keep (approval_grant_matches_event event)
          (λ (g : ApprovalGrant). g.policy_decision_ref == policy.decision_id)
          (map grant_of_row s.approval_grants) h in
      record {
        grant = grant;
        recorded = recorded;
        for_policy = (==_iff grant.policy_decision_ref policy.decision_id).0 own;
        matches = (grant_iff event grant).0 fits;
      }

  IsApproved-approved : IsApproved s event policy → approved ≡ true
  IsApproved-approved h =
      keep-any (approval_grant_matches_event event)
        (λ (g : ApprovalGrant). g.policy_decision_ref == policy.decision_id)
        (map grant_of_row s.approval_grants) h.recorded
        ((==_iff h.grant.policy_decision_ref policy.decision_id).1 h.for_policy)
        ((grant_iff event h.grant).1 h.matches)

  pub allows-of_ok :
      (report : AuditReplayReport)
      → (verify_policy_allows s event policy report).0 ≡ ok tt
      → Allows s event policy
  unfolding verify_policy_allows approval_grants_for_policy_decision
  allows-of_ok report h = record {
    not_denied = ground arith;
    approved = elim (Bool-cases (policy.decision == Decision.require_approval)) [
      | inl wanted ↦ inr (approved-IsApproved (ground (arith, wanted)))
      | inr free ↦
          inl (λ e. ground (arith, (==_iff policy.decision Decision.require_approval).1 e, free))
    ];
  }

  granted :
      Allows s event policy
      → policy.decision ≡ Decision.require_approval
      → IsApproved s event policy
  granted h wanted = elim h.approved [
    | inl free ↦ absurd (free wanted)
    | inr is_approved ↦ is_approved
  ]

  pub ok-of_allows :
      (report : AuditReplayReport)
      → Allows s event policy
      → (verify_policy_allows s event policy report).0 ≡ ok tt
  unfolding verify_policy_allows approval_grants_for_policy_decision
  ok-of_allows report h = elim (Bool-cases (policy.decision == Decision.require_approval)) [
    | inl wanted ↦ ground (
      arith,
      IsApproved-approved (granted h ((==_iff policy.decision Decision.require_approval).0 wanted)),
      h.not_denied,
    )
    | inr free ↦ ground (arith, h.not_denied)
  ]
