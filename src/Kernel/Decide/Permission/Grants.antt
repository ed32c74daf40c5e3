-- ===== src/Kernel/Decide/Permission/Grants.antt =====
-- When `decidePermission` grants a capability.
use metaclaw.Base.{
  ◌≡◌, inl, inr, Bool, true, ◌&&◌, Option, some, String, ◌==◌, ==→eq, In, find, mem-find, same,
  same→eq, Option-cases, Bool-cases, arith, &&-eq-true,
}
use metaclaw.Host.{Host}
use metaclaw.Resource.{
  NormalizedCapabilityRequest, CapabilityGrant, CapabilityGrantLimits, PermissionDecision,
}
use metaclaw.Resource.Policy.{evaluate_capability_request}
use metaclaw.Resource.Policy.Safety.{MayGrant, evaluate-MayGrant}
use metaclaw.Kernel.Model.{Event, approve, deny}
use metaclaw.Kernel.Snapshot.{PermissionSnapshot, Authorization, Decision, grant_capability}
use metaclaw.Kernel.Select.{decision}
use metaclaw.Kernel.Decide.Permission.{
  PermissionEvent, requested, represented, resolved, is_pending, is_granted, identity_mismatch,
  decide_settled, evaluation_input, apply_policy, decide_by_policy, decide_recovered_approval,
  decide_pending, decide_permission,
}

-- A pending request is granted by the policy alone.
pending-policy :
    (host : Host) (event : Event) (kind : PermissionEvent) (snapshot : PermissionSnapshot)
    (request : NormalizedCapabilityRequest) (d : Decision) (id rule : String)
    (limits : CapabilityGrantLimits) (a : Option Authorization)
    → decide_pending host event kind request snapshot ≡ some d
    → d.action ≡ grant_capability id limits rule a
    → decide_by_policy host event kind request snapshot ≡ some d
unfolding decide_pending decision decide_recovered_approval
pending-policy host event requested snapshot request d id rule limits a h k = h
pending-policy host event (represented i f) snapshot request d id rule limits a h k =
    absurd (ground arith)
pending-policy host event (resolved i deny s p) snapshot request d id rule limits a h k =
    absurd (ground arith)
pending-policy host event (resolved i approve s p) snapshot request d id rule limits a h k =
    elim (Bool-cases snapshot.attempt_active) [ inl e ↦ rw e at h | inr e ↦ absurd (ground arith) ]

-- A refusal of an event that names another request grants nothing.
mismatch-denies :
    (event : Event) (kind : PermissionEvent) (request : NormalizedCapabilityRequest) (d : Decision)
    (id rule : String) (limits : CapabilityGrantLimits) (a : Option Authorization)
    → identity_mismatch event kind request ≡ some d
    → d.action ≡ grant_capability id limits rule a
    → ⊥
unfolding identity_mismatch decision
mismatch-denies event requested request d id rule limits a h k = ground arith
mismatch-denies event (represented i f) request d id rule limits a h k = ground arith
mismatch-denies event (resolved i r s p) request d id rule limits a h k = ground arith

module _ (host : Host) (event : Event) (kind : PermissionEvent)
    (snapshot : PermissionSnapshot) where
  -- A grant repeats one that exists for the granted request, or the policy allows it now.
  pub data Granted (request : NormalizedCapabilityRequest) (limits : CapabilityGrantLimits)
      : Type 0 where
    again :
        (g : CapabilityGrant)
        → In g snapshot.current_grants
        → g.request_id ≡ request.id
        → g.limits ≡ limits
        → is_granted snapshot.request_status ≡ true
        → Granted request limits
    fresh :
        MayGrant host (evaluation_input event kind request snapshot)
        → is_pending snapshot.request_status ≡ true
        → Granted request limits

  settled-Granted :
      (request : NormalizedCapabilityRequest) (id rule : String) (limits : CapabilityGrantLimits)
      (a : Option Authorization)
      → (decide_settled event request snapshot).action ≡ grant_capability id limits rule a
      → Granted request limits × (id ≡ request.id)
  unfolding decide_settled decision
  settled-Granted request id rule limits a h =
      let test : CapabilityGrant → Bool = λ g. g.request_id == request.id in
      elim (Option-cases (find test snapshot.current_grants)) [
        | inl e ↦ absurd (ground arith)
        | inr (g, e) ↦
            let (m, t) = mem-find test g snapshot.current_grants e in
            (
              again g m (==→eq g.request_id request.id t) (ground arith) (ground arith),
              ground arith,
            )
      ]

  apply-Granted :
      (request : NormalizedCapabilityRequest) (result : PermissionDecision) (id rule : String)
      (limits : CapabilityGrantLimits) (a : Option Authorization)
      → evaluate_capability_request host (evaluation_input event kind request snapshot)
        ≡ some result
      → is_pending snapshot.request_status ≡ true
      → (apply_policy event kind request result).action ≡ grant_capability id limits rule a
      → Granted request limits × (id ≡ request.id)
  unfolding apply_policy decision
  apply-Granted request (PermissionDecision.grant_capability r why l) id rule limits a e p h = (
    fresh (evaluate-MayGrant host (evaluation_input event kind request snapshot) r why l e) p,
    ground arith,
  )
  apply-Granted request (PermissionDecision.deny_capability r why) id rule limits a e p h =
      absurd (ground arith)
  apply-Granted request (PermissionDecision.escalate_capability r why) id rule limits a e p h =
      absurd (ground arith)

  policy-Granted :
      (request : NormalizedCapabilityRequest) (d : Decision) (id rule : String)
      (limits : CapabilityGrantLimits) (a : Option Authorization)
      → decide_by_policy host event kind request snapshot ≡ some d
      → is_pending snapshot.request_status ≡ true
      → d.action ≡ grant_capability id limits rule a
      → Granted request limits × (id ≡ request.id)
  unfolding decide_by_policy
  policy-Granted request d id rule limits a h p k =
      elim (Option-cases
        (evaluate_capability_request host (evaluation_input event kind request snapshot))) [
          | inl e ↦ absurd (ground arith)
          | inr (result, e) ↦
              let same_d : apply_policy event kind request result ≡ d = ground arith in
              apply-Granted request result id rule limits a e p (rw same_d k)
        ]

  -- A grant answers the request of the snapshot, in the task and subtask of the event, and either
  -- repeats the limits of a grant that exists for a request already granted, or answers a pending
  -- request that the policy allows: no forbidden operation, a reason, within the budget, not
  -- denied before, and an allowing rule or the authorization of the user.
  pub decide_permission-Granted :
      (d : Decision) (id rule : String) (limits : CapabilityGrantLimits) (a : Option Authorization)
      → decide_permission host event kind snapshot ≡ some d
      → d.action ≡ grant_capability id limits rule a
      → (request : NormalizedCapabilityRequest) × (snapshot.request ≡ some request)
        × (id ≡ request.id)
        × (some request.task_id ≡ event.task_id)
        × (some request.subtask_id ≡ event.subtask_id)
        × Granted request limits
  unfolding decide_permission decision
  decide_permission-Granted d id rule limits a h k = elim (Option-cases snapshot.request) [
    | inl e ↦ absurd (ground arith)
    | inr (request, e) ↦
        elim (Bool-cases (
          same (some request.task_id) event.task_id
          && same (some request.subtask_id) event.subtask_id)) [
            | inr n ↦ absurd (ground arith)
            | inl n ↦
                let (t, s) =
                  &&-eq-true (same (some request.task_id) event.task_id)
                    (same (some request.subtask_id) event.subtask_id) n in
                let (g, i) = answered request e n in
                (
                  request,
                  e,
                  i,
                  same→eq (some request.task_id) event.task_id t,
                  same→eq (some request.subtask_id) event.subtask_id s,
                  g,
                )
          ]
  ]
    where
      answered :
          (request : NormalizedCapabilityRequest)
          → snapshot.request ≡ some request
          → (same (some request.task_id) event.task_id
              && same (some request.subtask_id) event.subtask_id)
            ≡ true
          → Granted request limits × (id ≡ request.id)
      answered request e n = elim (Option-cases (identity_mismatch event kind request)) [
        | inr (r, m) ↦
            absurd (mismatch-denies event kind request d id rule limits a (ground arith) k)
        | inl m ↦ elim (Bool-cases (is_pending snapshot.request_status)) [
          | inl p ↦
              policy-Granted request d id rule limits a
                (pending-policy host event kind snapshot request d id rule limits a (ground arith)
                  k)
                p k
          | inr p ↦
              let same_d : decide_settled event request snapshot ≡ d = ground arith in
              settled-Granted request id rule limits a (rw same_d k)
        ]
      ]
