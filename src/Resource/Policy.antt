-- ===== src/Resource/Policy.antt =====
-- src/resource/permission-policy.ts: the decision on a capability request. `none` is a thrown
-- error, of a partition that cannot be normalised or of a time that is no date.
pub mod Safety
use metaclaw.Base.{
  ℕ, ◌+◌, ◌*◌, Bool, true, false, ◌&&◌, ◌||◌, not, if◌then◌else◌, Option, none, some, get_or, ltb,
  ◌==◌, String, ◌⧺◌, List, [], ◌∷◌, find, contains, trim, is_empty, includes,
}
use metaclaw.Host.{Host}
use metaclaw.Resource.{
  NormalizedCapabilityRequest, CapabilityGrantLimits, PermissionRule, PermissionDecision,
  grant_capability, deny_capability, escalate_capability, Effect, allow, deny, escalate,
  ControlledCapability, additional_read_resource, network_target, sealed_secret,
  external_object_operation, repository_promotion, same_capability,
}
use metaclaw.Resource.Partition.{partition_covers, ◌>>=◌}

-- `READ_OR_NETWORK_CAPABILITIES.has`
abbrev pub is_read_or_network : ControlledCapability → Bool
is_read_or_network additional_read_resource = true
is_read_or_network network_target = true
is_read_or_network _ = false

-- `ALWAYS_ESCALATE_CAPABILITIES.has`
abbrev pub always_escalates : ControlledCapability → Bool
always_escalates sealed_secret = true
always_escalates external_object_operation = true
always_escalates repository_promotion = true
always_escalates _ = false

abbrev pub hard_deny_tokens : List String
hard_deny_tokens =
    "privileged" ∷ "docker_socket" ∷ "host_device" ∷ "host_pid" ∷ "host_ipc" ∷ "host_network"
    ∷ "bypass_broker" ∷ "bypass_egress_proxy" ∷ "system_credentials" ∷ "other_task_secret"
    ∷ "other_task_workspace" ∷ "modify_permission_policy" ∷ "modify_kernel_ledger"
    ∷ "weaken_sandbox" ∷ []

-- `HARD_DENY_TOKENS.find(token => operation.includes(token))`
unfoldable pub hard_denial : String → Option String
hard_denial operation = find (λ token. includes operation token) hard_deny_tokens

pub record EvaluationInput : Type 0 where
  pub request : NormalizedCapabilityRequest
  pub rules : List PermissionRule
  pub now : String
  pub previously_denied_fingerprints : List String
  pub user_authorization_fingerprints : List String
  pub max_distinct_requests : Option ℕ

abbrev pub operation_matches : String → String → Bool
operation_matches pattern_text operation = pattern_text == "*" || pattern_text == operation

abbrev pub capability_matches : Option ControlledCapability → ControlledCapability → Bool
capability_matches none c = true
capability_matches (some c') c = same_capability c' c

module _ (host : Host) where
  -- The test of `matchingRule`; the partitions are compared only if the rest agrees.
  unfoldable pub rule_matches : NormalizedCapabilityRequest → PermissionRule → Option Bool
  rule_matches request rule =
      if capability_matches rule.capability request.capability
        && operation_matches rule.operation request.operation
      then elim rule.partition [
        | none ↦ some true
        | some p ↦ partition_covers host p request.partition
      ]
      else some false

  -- `rules.find(...)`: the tests behind the first match are not made.
  unfoldable pub matching_rule :
      NormalizedCapabilityRequest → List PermissionRule → Option (Option PermissionRule)
  unfolding rule_matches
  matching_rule request [] = some none
  matching_rule request (rule ∷ rules) =
      let later = matching_rule request rules in
      (rule_matches request rule >>= λ fits. if fits then some (some rule) else later)

  unfoldable pub default_grant_limits :
      NormalizedCapabilityRequest → String → Option CapabilityGrantLimits
  default_grant_limits request now = do
    issued_at ← host.parse_date now
    some (record {
      expires_at =
          host.iso_date
            (issued_at + (if is_read_or_network request.capability then 15 else 5) * 60000);
      max_calls = if is_read_or_network request.capability then 100 else 1;
      max_bytes = if is_read_or_network request.capability then 100 * 1024 * 1024 else 1024 * 1024;
    })

  -- What follows the guards, given the rule that matched.
  unfoldable pub decide_by_rule :
      EvaluationInput → Option PermissionRule → Option PermissionDecision
  unfolding default_grant_limits
  decide_by_rule input rule =
      let fingerprint = input.request.fingerprint in
      let explicitly_authorized = contains input.user_authorization_fingerprints fingerprint in
      let authorized : Option PermissionDecision =
        (default_grant_limits input.request input.now >>= λ limits. some (
          grant_capability "user_authorization" "exact user authorization covers this request"
            limits)) in
      let unauthorized : PermissionDecision =
        if always_escalates input.request.capability
        then escalate_capability none "capability requires exact user authorization"
        else deny_capability none "no explicit permission rule covers this request" in
      elim rule [
        | none ↦ if explicitly_authorized then authorized else some unauthorized
        | some r ↦ elim r.effect [
          | deny ↦ some (deny_capability (some r.id) r.reason)
          | escalate ↦ some (escalate_capability (some r.id) r.reason)
          | allow ↦
              (default_grant_limits input.request input.now >>= λ limits.
              some (grant_capability r.id r.reason limits))
        ]
      ]

  unfoldable pub evaluate_capability_request : EvaluationInput → Option PermissionDecision
  unfolding matching_rule decide_by_rule
  evaluate_capability_request input =
      let request = input.request in
      let operation = host.lower request.operation in
      elim (hard_denial operation) [
        | some token ↦ some (deny_capability none ("platform hard deny: " ⧺ token))
        | none ↦
            if is_empty (trim request.reason)
            then some (deny_capability none "a concrete reason is required")
            else if ltb (get_or input.max_distinct_requests 8) request.distinct_request_ordinal
            then some (escalate_capability none "attempt capability request budget exceeded")
            else if contains input.previously_denied_fingerprints request.fingerprint
            then some (deny_capability none "identical capability request was already denied")
            else (matching_rule request input.rules >>= λ rule. decide_by_rule input rule)
      ]
