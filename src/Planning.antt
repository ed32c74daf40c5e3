-- ===== src/Planning.antt =====
-- `validatePlanningAgentPlan` of src/planning/planning-agent-plan-validator.ts. What zod makes of
-- the schema is a parameter: the plan with its texts trimmed, or the messages of its issues.
pub mod Routing
use metaclaw.Base.{
  Bool, true, false, ◌&&◌, ◌||◌, not, if◌then◌else◌, Option, none, some, get_or, is_some, String,
  ◌⧺◌, ◌==◌, List, [], ◌∷◌, ◌++◌, map, filter, contains, trim, is_empty, same, sort_by, text_le,
}
use metaclaw.Host.{Host}
use metaclaw.WorkGraph.{Proposal}
use metaclaw.WorkGraph.Validation.{validate_work_graph}
use metaclaw.WorkGraph.Validation.Report.{Violation, code_name}
use metaclaw.Kernel.Model.{
  PlanProposal, PlanAction, direct_reply, clarification, task_control, plan_work_graph,
  authorization_resolution, no_action, TaskBinding, reference, TaskControl, clear_tasks,
  status_query, resume_task, Priority, AuthorizationResolution,
}
use metaclaw.Kernel.Snapshot.{ExecutorCatalog, PendingAuthorization}
use metaclaw.Planning.Routing.{routing_errors}

-- The result of `PlanningAgentPlanSchema.safeParse`.
pub data Parsed : Type 0 where
  success : (plan : PlanProposal) → Parsed
  failure : (issues : List String) → Parsed

-- `!value?.trim()`
abbrev pub is_blank : Option String → Bool
is_blank none = true
is_blank (some s) = is_empty (trim s)

-- The error, if the test holds.
abbrev pub when : Bool → String → List String
when true e = e ∷ []
when false e = []

unfoldable pub action_errors : PlanProposal → List String
action_errors plan = elim plan.action [
  | clarification ↦
      when (is_blank plan.clarification_question) "clarification requires clarificationQuestion"
  | direct_reply ↦
      when (is_blank plan.direct_reply) "direct_reply requires a non-empty response.directReply"
  | task_control ↦ elim plan.task.control [
    | TaskControl.none ↦ "task_control requires a control kind" ∷ []
    | _ ↦ []
  ]
  | _ ↦ []
]

unfoldable pub control_scope_errors : PlanProposal → List String
control_scope_errors plan =
    let scope = get_or plan.task.scope "" in
    elim plan.action [
      | task_control ↦ elim plan.task.control [
        | status_query ↦
            when (not (contains ("dashboard" ∷ "blocked" ∷ "running" ∷ []) scope))
              "status_query requires scope dashboard, blocked, or running"
        | clear_tasks ↦
            when (not (contains ("all" ∷ "parked" ∷ "blocked" ∷ []) scope))
              "clear_tasks requires scope all, parked, or blocked"
        | resume_task ↦ when (is_some plan.task.scope) "resume_task requires scope null"
        | TaskControl.none ↦ []
      ]
      | _ ↦ []
    ]

abbrev pub is_schedulable : PlanProposal → Bool
is_schedulable plan = elim plan.action [
  | plan_work_graph ↦ true
  | task_control ↦ elim plan.task.control [ resume_task ↦ true | _ ↦ false ]
  | _ ↦ false
]

-- A level of the model is one of the three that `TASK_PRIORITIES` lists.
unfoldable pub priority_errors : PlanProposal → List String
priority_errors plan =
    if is_schedulable plan
    then elim plan.task.priority [
      | none ↦
          "schedulable actions require task.priority with valid level and non-empty reason" ∷ []
      | some priority ↦
          when (is_empty (trim priority.reason))
            "schedulable actions require task.priority with valid level and non-empty reason"
    ]
    else when (is_some plan.task.priority) "task.priority must be null for non-schedulable actions"

abbrev pub is_reference : TaskBinding → Bool
is_reference reference = true
is_reference _ = false

abbrev pub resolved_request : PlanProposal → Option String
resolved_request plan = elim plan.authorization_resolution [
  | none ↦ none
  | some r ↦ some r.request_id
]

unfoldable pub authorization_errors : PlanProposal → Option PendingAuthorization → List String
authorization_errors plan pending = elim plan.action [
  | authorization_resolution ↦ elim pending [
    | none ↦ "authorization_resolution requires a pending authorization request" ∷ []
    | some p ↦
        when (not (same (resolved_request plan) (some p.request_id)))
          "authorization_resolution requestId must exactly match the pending request"
        ++ when (not (is_reference plan.task.binding && same plan.task.task_id (some p.task_id)))
            "authorization_resolution must reference the pending request Task"
  ]
  | _ ↦ []
]

abbrev pub violation_text : Violation → String
unfolding code_name
violation_text v = code_name v.code ⧺ ": " ⧺ v.path ⧺ ": " ⧺ v.message

-- `validateWorkGraph` and `validateRouting`, if there is a graph.
module _ (host : Host) where
  unfoldable pub graph_errors : Option Proposal → ExecutorCatalog → List String
  unfolding validate_work_graph violation_text routing_errors
  graph_errors none catalog = []
  graph_errors (some graph) catalog =
      map violation_text (validate_work_graph host.locale_le graph.subtasks)
      ++ routing_errors catalog graph.subtasks

  -- The errors of a plan that the schema admits, in the order in which they are pushed.
  unfoldable pub plan_errors :
      PlanProposal → ExecutorCatalog → Option PendingAuthorization → List String
  unfolding action_errors control_scope_errors priority_errors authorization_errors graph_errors
  plan_errors plan catalog pending =
      action_errors plan
      ++ control_scope_errors plan
      ++ priority_errors plan
      ++ authorization_errors plan pending
      ++ graph_errors plan.work_graph catalog

  -- The sorted errors; the plan is valid if there are none.
  unfoldable pub validate_planning_agent_plan :
      (safe_parse : PlanProposal → Parsed)
      → PlanProposal
      → ExecutorCatalog
      → Option PendingAuthorization
      → Bool × List String
  unfolding plan_errors sort_by text_le
  validate_planning_agent_plan safe_parse value catalog pending = elim (safe_parse value) [
    | failure issues ↦ (false, sort_by text_le issues)
    | success plan ↦
        let errors = plan_errors plan catalog pending in
        (elim errors [ [] ↦ true | e ∷ es ↦ false ], sort_by text_le errors)
  ]
