-- ===== src/Kernel/Decide/Plan.antt =====
-- `decidePlan` and `decideAvailabilityRecovery` of src/kernel/control-kernel.ts.
pub mod Graph
pub mod Admission
use metaclaw.Base.{
  ℕ, ◌+◌, Bool, true, false, ◌&&◌, ◌||◌, not, if◌then◌else◌, Option, none, some, get_or, is_some,
  String, ◌⧺◌, ◌==◌, ltb, eqb, List, [], ◌∷◌, map, filter, find, any, contains, join, same, truthy,
}
use metaclaw.Host.{Host}
use metaclaw.WorkGraph.{Proposal}
use metaclaw.Planning.{Parsed, validate_planning_agent_plan}
use metaclaw.Kernel.Model.{
  Event, PlanProposal, PlanProposed, PlanAction, direct_reply, clarification, task_control,
  plan_work_graph, authorization_resolution, no_action, TaskControl, clear_tasks, status_query,
  resume_task, TaskStatus,
}
use metaclaw.Kernel.Snapshot.{
  TaskFact, PlanAdmission, Decision, Action, reject_request, request_clarification,
  deliver_direct_reply, no_op, record_permission_resolution, authorize_task_control,
}
use metaclaw.Kernel.Select.{present, decision}
use metaclaw.Kernel.Decide.Control.{task_status_name}
use metaclaw.Kernel.Decide.Dispatch.{other_task_runs}
use metaclaw.Kernel.Decide.Plan.Graph.{decide_work_graph}

-- `isStateChanging`
abbrev pub is_state_changing : PlanProposal → Bool
is_state_changing proposal = elim proposal.action [
  | plan_work_graph ↦ true
  | task_control ↦ elim proposal.task.control [ status_query ↦ false | _ ↦ true ]
  | _ ↦ false
]

-- `STATE_CHANGE_ACTIONS.has`
abbrev pub is_state_change_action : PlanAction → Bool
is_state_change_action task_control = true
is_state_change_action plan_work_graph = true
is_state_change_action _ = false

-- `snapshot.runningTaskId && proposal.task.taskId !== snapshot.runningTaskId`
abbrev pub another_runs : PlanProposal → PlanAdmission → Bool
another_runs proposal snapshot =
    is_some (present snapshot.running_task_id)
    && not (same proposal.task.task_id snapshot.running_task_id)

unfoldable pub decide_authorization_resolution : Event → PlanProposal → PlanAdmission → Decision
unfolding decision
decide_authorization_resolution event proposal snapshot =
    let mismatch =
      decision event reject_request "authorization resolution does not match the pending request" in
    elim proposal.authorization_resolution [
      | none ↦ mismatch
      | some r ↦ elim snapshot.pending_authorization_request [
        | none ↦ mismatch
        | some p ↦
            if r.request_id == p.request_id
            then decision event
                (record_permission_resolution p.task_id r.request_id r.resolution proposal.id)
                "Planner interpretation of exact authorization response accepted"
            else mismatch
      ]
    ]

abbrev pub is_resume : TaskControl → Bool
is_resume resume_task = true
is_resume _ = false

-- `['status_query', 'clear_tasks'].includes`
abbrev pub spares_running_task : TaskControl → Bool
spares_running_task status_query = true
spares_running_task clear_tasks = true
spares_running_task _ = false

abbrev pub is_resumable : TaskStatus → Bool
is_resumable TaskStatus.ready = true
is_resumable TaskStatus.parked = true
is_resumable TaskStatus.blocked = true
is_resumable _ = false

-- The task that a resumption names, if its status does not allow one.
unfoldable pub unresumable : PlanProposal → PlanAdmission → Option TaskFact
unresumable proposal snapshot =
    elim (find (λ t. same (some t.id) proposal.task.task_id) snapshot.tasks) [
      | none ↦ none
      | some t ↦ if is_resumable t.status then none else some t
    ]

unfoldable pub decide_control : Event → PlanProposal → PlanAdmission → Decision
unfolding decision unresumable
decide_control event proposal snapshot =
    let admitted =
      if another_runs proposal snapshot && not (spares_running_task proposal.task.control)
      then decision event reject_request
          ("single-active Task constraint: " ⧺ get_or snapshot.running_task_id "")
      else decision event (authorize_task_control proposal.task) "task control authorized" in
    if is_resume proposal.task.control
    then (if truthy proposal.task.task_id
        then elim (unresumable proposal snapshot) [
          | some t ↦
              decision event reject_request
                ("task " ⧺ t.id ⧺ " cannot resume from status " ⧺ task_status_name t.status)
          | none ↦ admitted
        ]
        else decision event
            (request_clarification
              (get_or proposal.clarification_question "Which task should be resumed?"))
            "resume requires an explicit task")
    else admitted

-- `proposal.task.taskId !== null && !snapshot.tasks.some(...)`
unfoldable pub unknown_task : PlanProposal → PlanAdmission → Bool
unknown_task proposal snapshot =
    is_some proposal.task.task_id
    && not (any (λ t. same (some t.id) proposal.task.task_id) snapshot.tasks)

module _ (host : Host) (safe_parse : PlanProposal → Parsed) where
  -- What follows the guards on validity, confirmation and confidence.
  unfoldable pub decide_action : Event → PlanProposed → PlanAdmission → Decision
  unfolding decision decide_authorization_resolution decide_control unknown_task decide_work_graph
  decide_action event plan snapshot =
      let proposal = plan.proposal in
      let missing =
        decision event reject_request ("task not found: " ⧺ get_or proposal.task.task_id "") in
      elim proposal.action [
        | direct_reply ↦
            decision event (deliver_direct_reply (get_or proposal.direct_reply ""))
              "direct reply authorized"
        | clarification ↦
            decision event
              (request_clarification
                (get_or proposal.clarification_question "Please clarify your request."))
              proposal.reason
        | no_action ↦ decision event no_op "no runtime action required"
        | authorization_resolution ↦ decide_authorization_resolution event proposal snapshot
        | task_control ↦
            if unknown_task proposal snapshot
            then missing
            else decide_control event proposal snapshot
        | plan_work_graph ↦
            if unknown_task proposal snapshot
            then missing
            else decide_work_graph host event plan snapshot
      ]

  unfoldable pub decide_plan : Event → PlanProposed → PlanAdmission → Decision
  unfolding decision validate_planning_agent_plan decide_action join
  decide_plan event plan snapshot =
      let proposal = plan.proposal in
      let (valid, errors) =
        validate_planning_agent_plan host safe_parse proposal snapshot.executor_catalog
          snapshot.pending_authorization_request in
      if not valid
      then decision event reject_request ("invalid PlanningAgentPlan: " ⧺ join "; " errors)
      else if is_state_changing proposal && proposal.requires_confirmation
      then decision event
          (request_clarification (get_or proposal.clarification_question "该操作存在较高风险，请明确确认是否继续执行。"))
          "risk confirmation required"
      else if is_state_change_action proposal.action && ltb proposal.confidence 450000
      then decision event
          (request_clarification
            (get_or proposal.clarification_question "Please clarify the requested task change."))
          "low confidence state-changing plan"
      else decide_action event plan snapshot
