-- ===== src/Ingress/Limits.antt =====
-- How many requests of one principal a gateway lets through.
use essence_agent.Base.{
  ℕ, ◌+◌, ◌≤◌, ◌<◌, ◌&&◌, String, Bool, true, false, ◌≡◌, inl, inr, refl, ap, ◌∙◌, List, [], ◌∷◌,
  arith, string_eq, ◌==◌, ==_iff, ==-refl, if◌then◌else◌, Bool-cases, subst, sym,
}
use essence_agent.Base.Table.{Table, lookup, insert, lookup-insert}
use essence_agent.Base.Outcome.Pure.{Result, ok, err}
use essence_agent.Ingress.Entry.{NormalizedEntry}
use essence_agent.Ingress.Gateway.{
  Gateway, GatewayConfig, new_gateway, principal, request_count, counted, is_exhausted, admit,
  or_zero,
}
use essence_agent.Ingress.Admission.{admit_iff}

count_insert :
    (k j : String) (n : ℕ) (t : Table ℕ)
    → or_zero (lookup j (insert k n t)) ≡ (if k == j then n else or_zero (lookup j t))
count_insert k j n t = ground (arith, lookup-insert k j n t)

abbrev is_ok : {E A : Type 0} → Result E A → Bool
is_ok (ok a) = true
is_ok (err e) = false

-- one, for a request of the principal that is let through
abbrev pub passes : String → String → NormalizedEntry → Gateway → ℕ
passes key uuid entry gateway =
    if principal entry.candidate == key && is_ok (admit uuid entry gateway).0 then 1 else 0

-- the requests of the principal that are let through in a row of calls
abbrev pub admitted : String → List (String × NormalizedEntry) → Gateway → ℕ
admitted key [] gateway = 0
admitted key ((uuid, entry) ∷ calls) gateway =
    passes key uuid entry gateway + admitted key calls (admit uuid entry gateway).1

module _ (key uuid : String) (entry : NormalizedEntry) (gateway : Gateway) where
  abbrev next : Gateway
  next = (admit uuid entry gateway).1

  same_config : next.config ≡ gateway.config
  unfolding admit counted
  same_config = refl

  count_of_principal : request_count (principal entry.candidate) next ≡ (
      if is_exhausted entry.candidate gateway
      then request_count (principal entry.candidate) gateway
      else request_count (principal entry.candidate) gateway + 1)
  unfolding admit counted
  count_of_principal =
      count_insert (principal entry.candidate) (principal entry.candidate) _ gateway.request_counts
      ∙ rw (==-refl (principal entry.candidate)) refl

  count_of_other :
      (principal entry.candidate == key) ≡ false
      → request_count key next ≡ request_count key gateway
  unfolding admit counted
  count_of_other other =
      count_insert (principal entry.candidate) key _ gateway.request_counts ∙ rw other refl

  passes_own :
      is_ok (admit uuid entry gateway).0 ≡ true
      → request_count (principal entry.candidate) gateway
        < gateway.config.max_requests_per_principal
  passes_own h = elim (admit_iff uuid entry gateway) [
    | inl (admits, _, _) ↦ admits.below_limit
    | inr (_, refused, _, _) ↦ absurd (ground (arith, refused, h))
  ]

  abbrev max_requests : ℕ
  max_requests = gateway.config.max_requests_per_principal

  own_step :
      principal entry.candidate ≡ key
      → request_count key gateway ≤ max_requests
      → (passes key uuid entry gateway + request_count key gateway ≤ request_count key next)
        × (request_count key next ≤ max_requests)
  own_step own below =
      subst
        (λ j.
          request_count j gateway ≤ max_requests
          → (passes j uuid entry gateway + request_count j gateway ≤ request_count j next)
            × (request_count j next ≤ max_requests))
        own
        (λ bound. elim (Bool-cases (is_ok (admit uuid entry gateway).0)) [
          | inl let_through ↦
              ground (arith, count_of_principal, let_through, passes_own let_through)
          | inr refused ↦ ground (arith, count_of_principal, refused)
        ])
        below

  step :
      request_count key gateway ≤ max_requests
      → (passes key uuid entry gateway + request_count key gateway ≤ request_count key next)
        × (request_count key next ≤ max_requests)
  step below = elim (Bool-cases (principal entry.candidate == key)) [
    | inl own ↦ own_step ((==_iff (principal entry.candidate) key).0 own) below
    | inr other ↦ ground (arith, other, count_of_other other)
  ]

within_limit :
    (key : String) (calls : List (String × NormalizedEntry)) (gateway : Gateway)
    → request_count key gateway ≤ gateway.config.max_requests_per_principal
    → admitted key calls gateway + request_count key gateway
      ≤ gateway.config.max_requests_per_principal
within_limit key [] gateway below = omega (arith, below)
within_limit key ((uuid, entry) ∷ calls) gateway below =
    let (passed, bound) = step key uuid entry gateway below in
    let same = same_config key uuid entry gateway in
    let rest = within_limit key calls (admit uuid entry gateway).1 (
      subst
        (λ config.
          request_count key (admit uuid entry gateway).1 ≤ config.max_requests_per_principal)
        (sym same) bound) in
    ground (arith, passed, bound, rest, ap (λ config. config.max_requests_per_principal) same)

-- However many calls are made of a new gateway, in whatever order, at most as many requests of one
-- principal are let through as its configuration allows.
pub admitted-le :
    (config : GatewayConfig) (key : String) (calls : List (String × NormalizedEntry))
    → admitted key calls (new_gateway config) ≤ config.max_requests_per_principal
admitted-le config key calls =
    omega (arith, within_limit key calls (new_gateway config) (omega arith))
