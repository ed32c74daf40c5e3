-- ===== src/Scenarios/KernelRuns.antt =====
-- Runs of the decisions on dispatch, failures, merge conflicts and plans.
use metaclaw.WorkGraph.Validation.Cycle.{contains_cycle}
use metaclaw.WorkGraph.Validation.Contract.{is_key}
use metaclaw.Base.{
  any_char, text_length, trim, In, ◌≢◌, ◌≡◌, refl, ◌≤◌, ◌&&◌, true, false, none, some, String, List,
  [], ◌∷◌,
}
use metaclaw.WorkGraph.{Proposal, low}
use metaclaw.Planning.{Parsed, validate_planning_agent_plan}
use metaclaw.Kernel.Failure.{KernelFailure, network, attempt}
use metaclaw.Kernel.Model.{
  Event, PlanProposal, PlanProposed, PlanTask, ExecutionOutcome, MergeConflict, failed, primary,
  fresh, initial, plan_work_graph, new, normal, dispatch_requested, execution_outcome,
  merge_conflict_observed, plan_proposed, read_only, TaskControl, TaskStatus, SubtaskStatus,
}
use metaclaw.Kernel.Snapshot.{
  SubtaskFact, Dispatch, DispatchItem, PlanAdmission, TaskPlan, GraphState, dispatch_batch,
  complete_task, authorize_task_plan,
}
use metaclaw.Kernel.Select.{select_dispatchable_subtasks}
use metaclaw.Kernel.Decide.Dispatch.{target_task, is_graph_ready, other_task_runs, decide_dispatch}
use metaclaw.Kernel.Decide.Dispatch.Guarantees.{
  ReplanWaits, SafeBatch, decide_dispatch-SafeBatch, decide_dispatch_completes,
}
use metaclaw.Kernel.Decide.Recovery.{decide_failure}
use metaclaw.Kernel.Decide.Repair.{decide_merge_conflict}
use metaclaw.Kernel.Decide.Recovery.Budgets.{Justified, decide_failure-Justified}
use metaclaw.Kernel.Decide.Repair.Merge.{MergeBudget, decide_merge_conflict-MergeBudget}
use metaclaw.Kernel.Decide.Plan.{decide_plan, is_state_changing, unknown_task}
use metaclaw.Kernel.Decide.Plan.Admission.{Admits, decide_plan-Admits}
use metaclaw.Scenarios.{host, event_of, subtask}

abbrev fact : String → SubtaskStatus → SubtaskFact
fact id status = record {
  id = id;
  task_id = "t1";
  status = status;
  preferred_agent_class_list = "codex" ∷ "pi" ∷ [];
}

abbrev snapshot : SubtaskStatus → List String → Dispatch
snapshot status frontier = record {
  task = some (record { id = "t1"; status = TaskStatus.running });
  running_task_id = some "t1";
  graph_state = GraphState.ready;
  subtasks = fact "a" status ∷ [];
  frontier = frontier;
  dispatch_items = [];
  max_concurrent_attempts = 2;
  available_slots = 1;
  resource_conflict_subtask_ids = [];
  capacity_probe_agent_classes = [];
  executor_statuses = [];
  native_continuation_agent_classes = [];
  attempts = [];
  generation_id = "g1";
  graph_revision = 1;
  automatic_replans_used = 0;
  recovery_safety = read_only;
  automatic_recovery_allowed = true;
  resource_grants_by_subtask = [];
  completion_blocked_reasons = [];
  generation_replan_request = none;
  generation_quiescent = false;
}

abbrev ready_snapshot : Dispatch
ready_snapshot = snapshot SubtaskStatus.ready ("a" ∷ [])

abbrev done_snapshot : Dispatch
done_snapshot = snapshot SubtaskStatus.done []

abbrev dispatch_event : Event
dispatch_event = event_of (dispatch_requested "resume")

abbrev items : List DispatchItem
items =
    record {
      subtask_id = "a";
      agent_class_name = "codex";
      attempt_id = "attempt_e1_a_codex_primary";
      attempt_kind = primary;
      source_attempt_id = none;
      recovery_mode = fresh;
      default_resource_grant = [];
      order = 0;
      attempt_payload = none;
    }
    ∷ []

dispatch_run :
    (decide_dispatch host dispatch_event ready_snapshot).action ≡ dispatch_batch "t1" items
unfolding decide_dispatch
dispatch_run = refl

decide_dispatch-SafeBatch_example :
    SafeBatch host dispatch_event ready_snapshot items
    × (target_task dispatch_event ready_snapshot ≡ some "t1")
    × (is_graph_ready ready_snapshot.graph_state ≡ true)
    × (other_task_runs ready_snapshot.running_task_id "t1" ≡ false)
decide_dispatch-SafeBatch_example =
    decide_dispatch-SafeBatch host dispatch_event ready_snapshot "t1" items dispatch_run

complete_run : (decide_dispatch host dispatch_event done_snapshot).action ≡ complete_task "t1"
unfolding decide_dispatch
complete_run = refl

decide_dispatch_completes_example :
    (done_snapshot.subtasks ≢ [])
    × ((s : SubtaskFact) → In s done_snapshot.subtasks → s.status ≡ SubtaskStatus.done)
    × (done_snapshot.completion_blocked_reasons ≡ [])
    × (¬ ReplanWaits host dispatch_event done_snapshot)
    × (select_dispatchable_subtasks done_snapshot ≡ [])
    × (target_task dispatch_event done_snapshot ≡ some "t1")
decide_dispatch_completes_example =
    decide_dispatch_completes host dispatch_event done_snapshot "t1" complete_run

abbrev failure : KernelFailure
failure = record { kind = network; scope = attempt; code = "reset"; summary = "connection reset" }

abbrev outcome : ExecutionOutcome
outcome = record {
  terminal_kind = failed;
  agent_class_name = "codex";
  attempt_kind = primary;
  source_attempt_id = none;
  failure = some failure;
}

abbrev failure_event : Event
failure_event = event_of (execution_outcome outcome)

decide_failure-Justified_example :
    Justified host failure_event outcome ready_snapshot "t1"
      (decide_failure host failure_event outcome ready_snapshot "t1").action
decide_failure-Justified_example =
    decide_failure-Justified host failure_event outcome ready_snapshot "t1"

abbrev conflict : MergeConflict
conflict = record {
  publication_id = "p1";
  conflict_chain_id = "h1";
  agent_class_name = "codex";
  source_attempt_id = "x1";
  repair_attempts_used = 2;
  conflict_replans_used = 0;
  conflicting_paths = "src/a.ts" ∷ [];
}

abbrev conflict_event : Event
conflict_event = event_of (merge_conflict_observed conflict)

decide_merge_conflict-MergeBudget_example :
    MergeBudget 2 0 1 "x1" (decide_merge_conflict conflict_event conflict ready_snapshot).action
decide_merge_conflict-MergeBudget_example =
    decide_merge_conflict-MergeBudget conflict_event conflict ready_snapshot

abbrev plan_task : PlanTask
plan_task = record {
  binding = new;
  task_id = none;
  control = TaskControl.none;
  scope = none;
  title = some "Report";
  goal = some "Write the report";
  include_recent_conversation_context = false;
  priority = some (record { level = normal; reason = "asked" });
}

abbrev graph : Proposal
graph = record { reason = "one step"; subtasks = subtask "a" [] "codex" ∷ [] }

abbrev proposal : PlanProposal
proposal = record {
  id = "plan1";
  action = plan_work_graph;
  confidence = 900000;
  reason = "work";
  clarification_question = none;
  direct_reply = none;
  task = plan_task;
  risk_level = low;
  requires_confirmation = false;
  risk_reasons = [];
  authorization_resolution = none;
  work_graph = some graph;
  source = "anyfusion-planner";
}

abbrev plan : PlanProposed
plan = record {
  proposal = proposal;
  request_text = "Write the report";
  generation_id = "g1";
  proposal_source = initial;
  target_graph_revision = 1;
  availability_explanation = none;
}

abbrev admission : PlanAdmission
admission = record {
  tasks = [];
  running_task_id = none;
  executor_catalog = record {
    capabilities = "code" ∷ "web" ∷ [];
    executors = record { name = "codex"; routing_capabilities = "code" ∷ [] } ∷ [];
  };
  executor_statuses = [];
  v5_work_graph_task_ids = [];
  eligible_context_ref_keys = "current_user_input" ∷ [];
  pending_authorization_request = none;
}

abbrev plan_event : Event
plan_event = event_of (plan_proposed plan)

abbrev task_plan : TaskPlan
task_plan = record {
  task_id = "task_e1";
  task = plan_task;
  work_graph = graph;
  generation_id = "g1";
  graph_revision = 1;
  proposal_source = initial;
}

plan_run :
    (decide_plan host Parsed.success plan_event plan admission).action
    ≡ authorize_task_plan task_plan
unfolding decide_plan trim is_key any_char text_length contains_cycle
plan_run = refl

decide_plan-Admits_example :
    Admits host Parsed.success plan_event plan admission task_plan
    × ((validate_planning_agent_plan host Parsed.success plan.proposal admission.executor_catalog
          admission.pending_authorization_request).0
        ≡ true)
    × ((is_state_changing plan.proposal && plan.proposal.requires_confirmation) ≡ false)
    × (450000 ≤ plan.proposal.confidence)
    × (unknown_task plan.proposal admission ≡ false)
decide_plan-Admits_example =
    decide_plan-Admits host Parsed.success plan_event plan admission task_plan plan_run
