-- ===== src/Scenarios/ControlRuns.antt =====
-- Runs of the decisions on task control, timers and permissions.
use metaclaw.Resource.Policy.{hard_denial}
use metaclaw.WorkGraph.Cancellation.Visit.{visit, visit_all}
use metaclaw.WorkGraph.Cancellation.{
  deeper_first, dependents_of, depths_of, fact_is, judge, known_subtask, next_of, order_closure,
}
use metaclaw.Base.{
  get, includes, index_by, set, show_nat, text_length, trim, unique, ◌≡◌, ◌↔◌, refl, true, none,
  some, String, List, [], ◌∷◌, In,
}
use metaclaw.Resource.{
  same_capability, NormalizedCapabilityRequest, CapabilityGrantLimits, network_target, once,
  workspace_engineering, logical, PermissionRule, allow,
}
use metaclaw.WorkGraph.Cancellation.Closure.{IsClosure}
use metaclaw.Kernel.Model.{
  Event, SubtaskStatus, TaskStatus, TimerTick, retry, subtasks_cancel_requested, timer_tick,
  partial_result_acceptance_requested, permission_requested, continuation, recovery_packet,
}
use metaclaw.Kernel.Snapshot.{
  TaskFact, CancellationSubtaskFact, TaskControlSnapshot, TimerSnapshot, PermissionSnapshot,
  pending, Decision, DispatchItem, dispatch_batch, cancel_subtasks, accept_partial_result,
  grant_capability,
}
use metaclaw.Kernel.Decide.Control.{
  cancel_some_subtasks, accept_partial, decide_task_control, cancellation_nodes,
}
use metaclaw.Kernel.Decide.Timer.{decide_timer}
use metaclaw.Kernel.Decide.Control.Fence.{decide_task_control_cancels}
use metaclaw.Kernel.Decide.Control.Partial.{PartialResult, decide_task_control_accepts}
use metaclaw.Kernel.Decide.Timer.Wake.{Due, decide_timer-Due}
use metaclaw.Kernel.Decide.Permission.{requested, decide_permission}
use metaclaw.Kernel.Decide.Permission.Grants.{Granted, decide_permission-Granted}
use metaclaw.Scenarios.{host, event_of}

abbrev node : String → SubtaskStatus → List String → CancellationSubtaskFact
node id status dependencies = record {
  fact = record {
    id = id;
    task_id = "t1";
    status = status;
    preferred_agent_class_list = "codex" ∷ [];
  };
  dependency_subtask_ids = dependencies;
}

abbrev task : TaskFact
task = record { id = "t1"; status = TaskStatus.blocked }

abbrev snapshot : List CancellationSubtaskFact → TaskControlSnapshot
snapshot subtasks = record {
  task = some task;
  generation_id = some "g1";
  graph_revision = some 1;
  subtasks = subtasks;
  completion_blocked_reasons = [];
  partial_cancellation = true;
}

abbrev open_snapshot : TaskControlSnapshot
open_snapshot =
    snapshot (node "a" SubtaskStatus.ready [] ∷ node "b" SubtaskStatus.ready ("a" ∷ []) ∷ [])

abbrev closed_snapshot : TaskControlSnapshot
closed_snapshot =
    snapshot (node "a" SubtaskStatus.done [] ∷ node "b" SubtaskStatus.cancelled ("a" ∷ []) ∷ [])

abbrev cancel_event : Event
cancel_event = event_of (subtasks_cancel_requested ("a" ∷ []) "stop")

abbrev statuses : List (String × SubtaskStatus)
statuses = ("a", SubtaskStatus.ready) ∷ ("b", SubtaskStatus.ready) ∷ []

abbrev cancelled : Decision
cancelled = record {
  id = "decision_e1";
  event_id = "e1";
  action = cancel_subtasks "t1" "g1" 1 ("b" ∷ "a" ∷ []) statuses;
  reason = "atomic downstream Subtask cancellation closure authorized";
}

cancel_run :
    decide_task_control host cancel_event (cancel_some_subtasks ("a" ∷ [])) open_snapshot
    ≡ some cancelled
unfolding decide_task_control unique known_subtask depths_of visit_all visit get next_of
    dependents_of set judge order_closure deeper_first fact_is index_by
cancel_run = refl

decide_task_control_cancels_example :
    (targets : List String) × (cancel_some_subtasks ("a" ∷ []) ≡ cancel_some_subtasks targets)
    × IsClosure (cancellation_nodes open_snapshot.subtasks) targets ("b" ∷ "a" ∷ [])
    × ((id : String) (status : SubtaskStatus)
        → In (id, status) statuses ↔ (
            (s : CancellationSubtaskFact) × In s open_snapshot.subtasks
            × In s.id ("b" ∷ "a" ∷ [])
            × (id ≡ s.id)
            × (status ≡ s.status)))
decide_task_control_cancels_example =
    decide_task_control_cancels host cancel_event (cancel_some_subtasks ("a" ∷ [])) open_snapshot
      cancelled "t1" "g1" 1 ("b" ∷ "a" ∷ []) statuses cancel_run refl

abbrev accept_event : Event
accept_event = event_of partial_result_acceptance_requested

abbrev accepted : Decision
accepted = record {
  id = "decision_e1";
  event_id = "e1";
  action = accept_partial_result "t1" "g1" 1 ("a" ∷ []) ("b" ∷ []);
  reason = "explicit partial result acceptance authorized";
}

accept_run : decide_task_control host accept_event accept_partial closed_snapshot ≡ some accepted
unfolding decide_task_control
accept_run = refl

decide_task_control_accepts_example :
    (accept_partial ≡ accept_partial)
    × PartialResult accept_event closed_snapshot "t1" "g1" 1 ("a" ∷ []) ("b" ∷ [])
decide_task_control_accepts_example =
    decide_task_control_accepts host accept_event accept_partial closed_snapshot accepted "t1" "g1"
      1 ("a" ∷ []) ("b" ∷ []) accept_run refl

abbrev tick : TimerTick
tick = record {
  wake_kind = retry;
  source_decision_id = "decision_e0";
  scheduled_for = "t";
  retry = some (record { agent_class_name = "codex"; source_attempt_id = "x1" });
}

abbrev timer : TimerSnapshot
timer = record {
  task = some task;
  wake_authorized = true;
  capacity_blocked_at = none;
  recheck_after_ms = 30000;
  capacity_agent_classes = [];
  native_continuation_agent_classes = [];
  executor_statuses = [];
  default_resource_grant = [];
}

abbrev items : List DispatchItem
items =
    record {
      subtask_id = "a";
      agent_class_name = "codex";
      attempt_id = "attempt_e1_a_codex_continuation";
      attempt_kind = continuation;
      source_attempt_id = some "x1";
      recovery_mode = recovery_packet;
      default_resource_grant = [];
      order = 0;
      attempt_payload = none;
    }
    ∷ []

abbrev timer_event : Event
timer_event = event_of (timer_tick tick)

timer_run : (decide_timer host timer_event tick timer).action ≡ dispatch_batch "t1" items
unfolding decide_timer text_length
timer_run = refl

decide_timer-Due_example : Due host timer_event tick timer "t1" items
decide_timer-Due_example = decide_timer-Due host timer_event tick timer "t1" items timer_run

abbrev request : NormalizedCapabilityRequest
request = record {
  capability = network_target;
  resource = "api.example.org";
  operation = "fetch";
  reason = "read the documentation";
  suggested_scope = once;
  id = "r1";
  fingerprint = "f1";
  task_id = "t1";
  generation_id = "g1";
  subtask_id = "a";
  attempt_id = "x1";
  agent_class_name = "codex";
  permission_profile_id = workspace_engineering;
  partition = logical "net" "api.example.org";
  distinct_request_ordinal = 1;
}

abbrev rule : PermissionRule
rule = record {
  id = "net";
  effect = allow;
  capability = some network_target;
  operation = "*";
  partition = none;
  reason = "documentation";
}

abbrev permission : PermissionSnapshot
permission = record {
  request = some request;
  request_status = some pending;
  rules = rule ∷ [];
  current_grants = [];
  user_authorization_fingerprints = [];
  previously_denied_fingerprints = [];
  attempt_active = true;
  workspace_id = none;
  checkpoint_id = none;
}

abbrev limits : CapabilityGrantLimits
limits = record { expires_at = "900003"; max_calls = 100; max_bytes = 104857600 }

abbrev permission_event : Event
permission_event = event_of (permission_requested request)

abbrev granted : Decision
granted = record {
  id = "decision_e1";
  event_id = "e1";
  action = grant_capability "r1" limits "net" none;
  reason = "documentation";
}

permission_run : decide_permission host permission_event requested permission ≡ some granted
unfolding decide_permission hard_denial includes trim same_capability mathlib.Core.Bool.decide
    show_nat text_length
permission_run = refl

decide_permission-Granted_example :
    (r : NormalizedCapabilityRequest) × (permission.request ≡ some r)
    × ("r1" ≡ r.id)
    × (some r.task_id ≡ permission_event.task_id)
    × (some r.subtask_id ≡ permission_event.subtask_id)
    × Granted host permission_event requested permission r limits
decide_permission-Granted_example =
    decide_permission-Granted host permission_event requested permission granted "r1" "net" limits
      none permission_run refl
