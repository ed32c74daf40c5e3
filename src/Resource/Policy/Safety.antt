-- ===== src/Resource/Policy/Safety.antt =====
-- What the evaluation of a capability request never grants.
use metaclaw.Base.{
  ◌≡◌, ◌⊎◌, inl, inr, ◌≤◌, true, false, Option, none, some, get_or, String, List, [], ◌∷◌,
  find-none, contains, trim, is_empty, includes, arith, Option-cases, In,
}
use metaclaw.Host.{Host}
use metaclaw.Resource.{
  NormalizedCapabilityRequest, CapabilityGrantLimits, PermissionRule, grant_capability, allow,
}
use metaclaw.Resource.Policy.{
  EvaluationInput, hard_deny_tokens, hard_denial, rule_matches, matching_rule, decide_by_rule,
  evaluate_capability_request,
}

module _ (host : Host) where
  matching_rule-matches :
      (request : NormalizedCapabilityRequest) (rules : List PermissionRule) (r : PermissionRule)
      → matching_rule host request rules ≡ some (some r)
      → In r rules × (rule_matches host request r ≡ some true)
  unfolding matching_rule
  matching_rule-matches request [] r h = cc
  matching_rule-matches request (q ∷ rules) r h =
      ground (arith, matching_rule-matches request rules r)

  -- A grant needs an operation without a forbidden token, a reason, a request within the budget
  -- that was not denied before, and an allowing rule or the user's authorization.
  pub record MayGrant (input : EvaluationInput) : Type 0 where
    pub allowed_operation :
        (token : String)
        → In token hard_deny_tokens
        → includes (host.lower input.request.operation) token ≡ false
    pub has_reason : is_empty (trim input.request.reason) ≡ false
    pub in_budget : input.request.distinct_request_ordinal ≤ get_or input.max_distinct_requests 8
    pub not_denied : contains input.previously_denied_fingerprints input.request.fingerprint ≡ false
    pub authorized :
        (contains input.user_authorization_fingerprints input.request.fingerprint ≡ true)
        ⊎ ((r : PermissionRule) × In r input.rules
            × (r.effect ≡ allow)
            × (rule_matches host input.request r ≡ some true))

  decide_by_rule-grants :
      (input : EvaluationInput) (rule : Option PermissionRule) (id why : String)
      (limits : CapabilityGrantLimits)
      → matching_rule host input.request input.rules ≡ some rule
      → decide_by_rule host input rule ≡ some (grant_capability id why limits)
      → (contains input.user_authorization_fingerprints input.request.fingerprint ≡ true)
        ⊎ ((r : PermissionRule) × In r input.rules
            × (r.effect ≡ allow)
            × (rule_matches host input.request r ≡ some true))
  unfolding decide_by_rule
  decide_by_rule-grants input none id why limits m h = inl (ground arith)
  decide_by_rule-grants input (some r) id why limits m h =
      let (k, e) = matching_rule-matches input.request input.rules r m in
      inr (r, k, ground arith, e)

  evaluate-rule :
      (input : EvaluationInput) (id why : String) (limits : CapabilityGrantLimits)
      → evaluate_capability_request host input ≡ some (grant_capability id why limits)
      → (rule : Option PermissionRule) × (matching_rule host input.request input.rules ≡ some rule)
        × (decide_by_rule host input rule ≡ some (grant_capability id why limits))
  unfolding evaluate_capability_request
  evaluate-rule input id why limits h =
      elim (Option-cases (matching_rule host input.request input.rules)) [
        | inl e ↦ absurd (ground arith)
        | inr (rule, e) ↦ (rule, e, ground arith)
      ]

  evaluate-guards :
      (input : EvaluationInput) (id why : String) (limits : CapabilityGrantLimits)
      → evaluate_capability_request host input ≡ some (grant_capability id why limits)
      → (hard_denial (host.lower input.request.operation) ≡ none)
        × (is_empty (trim input.request.reason) ≡ false)
        × (input.request.distinct_request_ordinal ≤ get_or input.max_distinct_requests 8)
        × (contains input.previously_denied_fingerprints input.request.fingerprint ≡ false)
  unfolding evaluate_capability_request
  evaluate-guards input id why limits h = ground arith

  hard_denial-none :
      (operation token : String)
      → hard_denial operation ≡ none
      → In token hard_deny_tokens
      → includes operation token ≡ false
  unfolding hard_denial
  hard_denial-none operation token h m =
      find-none (λ t. includes operation t) token hard_deny_tokens h m

  -- A capability request that is granted has no forbidden token in its operation, has a reason,
  -- is within the budget of requests, was not denied before, and an allowing rule matches it or
  -- the user authorized it exactly.
  pub evaluate-MayGrant :
      (input : EvaluationInput) (id why : String) (limits : CapabilityGrantLimits)
      → evaluate_capability_request host input ≡ some (grant_capability id why limits)
      → MayGrant input
  evaluate-MayGrant input id why limits h =
      let (no_token, reason, budget, fresh) = evaluate-guards input id why limits h in
      let (rule, m, d) = evaluate-rule input id why limits h in
      record {
        allowed_operation =
            λ token. hard_denial-none (host.lower input.request.operation) token no_token;
        has_reason = reason;
        in_budget = budget;
        not_denied = fresh;
        authorized = decide_by_rule-grants input rule id why limits m d;
      }
