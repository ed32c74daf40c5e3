-- ===== src/Kernel/Decide/Permission.antt =====
-- `decidePermission`, `decidePartitionConflict` and `decideSandboxRecovery` of
-- src/kernel/control-kernel.ts. `none` is an error that the evaluation of the request throws.
pub mod Grants
use metaclaw.Base.{
  Bool, true, false, ◌&&◌, ◌||◌, not, if◌then◌else◌, Option, none, some, get_or, String, ◌⧺◌, ◌==◌,
  List, [], ◌∷◌, ◌++◌, find, same, unique, sort_by, text_le,
}
use metaclaw.Host.{Host}
use metaclaw.Resource.{NormalizedCapabilityRequest, CapabilityGrant, PermissionDecision}
use metaclaw.Resource.Policy.{EvaluationInput, evaluate_capability_request}
use metaclaw.Kernel.Model.{Event, Resolution, approve, deny, ResolutionSource}
use metaclaw.Kernel.Snapshot.{
  PermissionSnapshot, PartitionSnapshot, SandboxRecovery, RequestStatus, pending, granted, denied,
  expired, Authorization, Decision, block_work, grant_capability, deny_capability,
  escalate_capability, wait_for_partition, recover_workspace_attempt,
}
use metaclaw.Kernel.Select.{present, decision}

-- The three events of `decidePermission`, with what it reads of them.
pub data PermissionEvent : Type 0 where
  requested : PermissionEvent
  represented : (request_id request_fingerprint : String) → PermissionEvent
  resolved :
      (request_id : String) (resolution : Resolution) (source : ResolutionSource)
      (planner_plan_id : Option String)
      → PermissionEvent

abbrev pub is_pending : Option RequestStatus → Bool
is_pending (some pending) = true
is_pending _ = false

abbrev pub is_granted : Option RequestStatus → Bool
is_granted (some granted) = true
is_granted _ = false

abbrev pub status_name : Option RequestStatus → String
status_name none = "missing"
status_name (some pending) = "pending"
status_name (some granted) = "granted"
status_name (some denied) = "denied"
status_name (some expired) = "expired"

-- The refusal of an event that does not name the request of the snapshot.
unfoldable pub identity_mismatch :
    Event → PermissionEvent → NormalizedCapabilityRequest → Option Decision
unfolding decision
identity_mismatch event requested request = none
identity_mismatch event (resolved id resolution source plan) request =
    if id == request.id
    then none
    else some (decision event (deny_capability id none) "permission resolution request ID mismatch")
identity_mismatch event (represented id fingerprint) request =
    if (id == request.id) && (fingerprint == request.fingerprint)
    then none
    else some (decision event (deny_capability id none) "permission review identity mismatch")

-- The branch of a request that is not pending.
unfoldable pub decide_settled : Event → NormalizedCapabilityRequest → PermissionSnapshot → Decision
unfolding decision
decide_settled event request snapshot =
    let refused =
      decision event (deny_capability request.id none)
        ("permission request is " ⧺ status_name snapshot.request_status) in
    elim (find (λ g. g.request_id == request.id) snapshot.current_grants) [
      | none ↦ refused
      | some existing ↦
          if is_granted snapshot.request_status
          then decision event (grant_capability request.id existing.limits "existing_grant" none)
              "duplicate request returns the existing grant"
          else refused
    ]

abbrev pub authorization_of : Event → PermissionEvent → Option Authorization
authorization_of event requested = none
authorization_of event (represented id fingerprint) = none
authorization_of event (resolved id resolution source plan) = some (record {
  received_event_id = event.id;
  resolution = approve;
  source = source;
  planner_plan_id = plan;
})

-- `authorizationFingerprints`
unfoldable pub authorization_fingerprints :
    PermissionEvent → NormalizedCapabilityRequest → PermissionSnapshot → List String
unfolding unique
authorization_fingerprints (resolved id resolution source plan) request snapshot =
    unique (snapshot.user_authorization_fingerprints ++ request.fingerprint ∷ [])
authorization_fingerprints _ request snapshot = snapshot.user_authorization_fingerprints

-- What the policy's decision becomes.
unfoldable pub apply_policy :
    Event → PermissionEvent → NormalizedCapabilityRequest → PermissionDecision → Decision
unfolding decision
apply_policy event kind request (PermissionDecision.grant_capability rule_id reason limits) =
    decision event (grant_capability request.id limits rule_id (authorization_of event kind)) reason
apply_policy event kind request (PermissionDecision.escalate_capability rule_id reason) =
    decision event (escalate_capability request.id) reason
apply_policy event kind request (PermissionDecision.deny_capability rule_id reason) =
    decision event (deny_capability request.id none) reason

unfoldable pub evaluation_input :
    Event → PermissionEvent → NormalizedCapabilityRequest → PermissionSnapshot → EvaluationInput
unfolding authorization_fingerprints
evaluation_input event kind request snapshot = record {
  request = request;
  rules = snapshot.rules;
  now = event.occurred_at;
  previously_denied_fingerprints = snapshot.previously_denied_fingerprints;
  user_authorization_fingerprints = authorization_fingerprints kind request snapshot;
  max_distinct_requests = none;
}

module _ (host : Host) where
  unfoldable pub decide_by_policy :
      Event → PermissionEvent → NormalizedCapabilityRequest → PermissionSnapshot → Option Decision
  unfolding evaluate_capability_request apply_policy evaluation_input
  decide_by_policy event kind request snapshot =
      elim (evaluate_capability_request host (evaluation_input event kind request snapshot)) [
        | none ↦ none
        | some result ↦ some (apply_policy event kind request result)
      ]

  -- An approval whose attempt is over: the work is recovered, not granted.
  unfoldable pub decide_recovered_approval :
      Event → NormalizedCapabilityRequest → PermissionSnapshot → Option Authorization → Decision
  unfolding decision
  decide_recovered_approval event request snapshot authorization =
      elim (present snapshot.workspace_id) [
        | none ↦
            decision event (deny_capability request.id none)
              "approved request has no recoverable workspace"
        | some workspace_id ↦
            decision event
              (recover_workspace_attempt request.task_id request.subtask_id workspace_id
                snapshot.checkpoint_id (some request.id) authorization)
              "user authorization recorded; a fresh recovery attempt must receive a new bounded grant"
      ]

  -- A pending request.
  unfoldable pub decide_pending :
      Event → PermissionEvent → NormalizedCapabilityRequest → PermissionSnapshot → Option Decision
  unfolding decision decide_by_policy decide_recovered_approval
  decide_pending event requested request snapshot =
      decide_by_policy event requested request snapshot
  decide_pending event (represented id fingerprint) request snapshot = some (
      decision event (escalate_capability request.id)
        "unresolved permission review re-presented after Session replacement")
  decide_pending event (resolved id deny source plan) request snapshot = some (
      decision event
        (deny_capability request.id (
          some (record {
            received_event_id = event.id;
            resolution = deny;
            source = source;
            planner_plan_id = plan;
          })))
        "user denied the exact capability request")
  decide_pending event (resolved id approve source plan) request snapshot =
      if snapshot.attempt_active
      then decide_by_policy event (resolved id approve source plan) request snapshot
      else some (
          decide_recovered_approval event request snapshot
            (authorization_of event (resolved id approve source plan)))

  unfoldable pub decide_permission : Event → PermissionEvent → PermissionSnapshot → Option Decision
  unfolding decision identity_mismatch decide_settled decide_pending
  decide_permission event kind snapshot = elim snapshot.request [
    | none ↦ some (decision event (deny_capability "" none) "permission request identity mismatch")
    | some request ↦
        if same (some request.task_id) event.task_id
          && same (some request.subtask_id) event.subtask_id
        then elim (identity_mismatch event kind request) [
          | some refusal ↦ some refusal
          | none ↦
              if is_pending snapshot.request_status
              then decide_pending event kind request snapshot
              else some (decide_settled event request snapshot)
        ]
        else some (
            decision event (deny_capability request.id none) "permission request identity mismatch")
  ]

unfoldable pub decide_partition_conflict : Event → List String → PartitionSnapshot → Decision
unfolding decision sort_by text_le unique
decide_partition_conflict event conflicting_lease_ids snapshot =
    let incomplete =
      decision event (block_work (get_or event.task_id "") event.subtask_id)
        "partition conflict facts are incomplete" in
    elim (present event.task_id) [
      | none ↦ incomplete
      | some task_id ↦ elim (present event.subtask_id) [
        | none ↦ incomplete
        | some subtask_id ↦ elim conflicting_lease_ids [
          | [] ↦ incomplete
          | l ∷ ls ↦
              if snapshot.conflict_confirmed
              then decision event
                  (wait_for_partition task_id subtask_id (sort_by text_le (unique (l ∷ ls))))
                  "conflicting resource lease requires Kernel wait"
              else incomplete
        ]
      ]
    ]

unfoldable pub decide_sandbox_recovery :
    Event → (workspace_id : String) → SandboxRecovery → Decision
unfolding decision
decide_sandbox_recovery event workspace_id snapshot =
    let lost =
      decision event (block_work (get_or event.task_id "") event.subtask_id)
        "sandbox loss has no recoverable workspace" in
    elim (present event.task_id) [
      | none ↦ lost
      | some task_id ↦ elim (present event.subtask_id) [
        | none ↦ lost
        | some subtask_id ↦
            if snapshot.workspace_exists && same snapshot.workspace_id (some workspace_id)
            then decision event
                (recover_workspace_attempt task_id subtask_id workspace_id snapshot.checkpoint_id
                  none none)
                "lost sandbox will be replaced by a fresh attempt using the persistent workspace"
            else lost
      ]
    ]
