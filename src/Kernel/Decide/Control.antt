-- ===== src/Kernel/Decide/Control.antt =====
-- `decideTaskControl` of src/kernel/control-kernel.ts. `none` is a cancellation whose dependencies
-- form a cycle: the recursion of the source does not end.
pub mod Fence
pub mod Partial
use metaclaw.Base.{
  ℕ, ◌-◌, Bool, true, false, ◌&&◌, ◌||◌, not, if◌then◌else◌, Option, none, some, get_or, String,
  ◌⧺◌, ◌==◌, ltb, leb, List, [], ◌∷◌, map, filter, find, any, contains, join, sort_by, text_le,
}
use metaclaw.Host.{Host}
use metaclaw.WorkGraph.Cancellation.{
  CancellationStatus, CancellationFact, Node, RejectionReason, empty_targets, unknown_subtask,
  already_done, already_cancelled, ClosureResult, ok, rejected, derive_cancellation_closure,
}
use metaclaw.Kernel.Model.{
  Event, TaskStatus, SubtaskStatus, WakeKind, capacity, retry, availability, TimerTick,
  RecoveryResolution, assume_applied, continuation, native_session, recovery_packet,
}
use metaclaw.Kernel.Snapshot.{
  TaskFact, CancellationSubtaskFact, TaskControlSnapshot, TimerSnapshot, RecoverySnapshot, Decision,
  reject_request, cancel_task, cancel_subtasks, accept_partial_result, no_op, probe_capacity,
  block_work, resolve_recovery,
}
use metaclaw.Kernel.Select.{present, decision, single_dispatch_batch, unavailable_agent_classes}

abbrev pub task_status_name : TaskStatus → String
task_status_name TaskStatus.created = "created"
task_status_name TaskStatus.ready = "ready"
task_status_name TaskStatus.running = "running"
task_status_name TaskStatus.parked = "parked"
task_status_name TaskStatus.blocked = "blocked"
task_status_name TaskStatus.done = "done"
task_status_name TaskStatus.archived = "archived"
task_status_name TaskStatus.cancelled = "cancelled"

abbrev pub is_closed : TaskStatus → Bool
is_closed TaskStatus.done = true
is_closed TaskStatus.archived = true
is_closed TaskStatus.cancelled = true
is_closed _ = false

abbrev pub is_blocked : TaskStatus → Bool
is_blocked TaskStatus.blocked = true
is_blocked _ = false

abbrev pub is_subtask_done : SubtaskStatus → Bool
is_subtask_done SubtaskStatus.done = true
is_subtask_done _ = false

abbrev pub is_subtask_cancelled : SubtaskStatus → Bool
is_subtask_cancelled SubtaskStatus.cancelled = true
is_subtask_cancelled _ = false

abbrev pub rejection_name : RejectionReason → String
rejection_name empty_targets = "empty_targets"
rejection_name unknown_subtask = "unknown_subtask"
rejection_name already_done = "already_done"
rejection_name already_cancelled = "already_cancelled"

-- The same status in the type that the closure reads.
abbrev pub cancellation_status : SubtaskStatus → CancellationStatus
cancellation_status SubtaskStatus.ready = CancellationStatus.ready
cancellation_status SubtaskStatus.running = CancellationStatus.running
cancellation_status SubtaskStatus.awaiting_integration = CancellationStatus.awaiting_integration
cancellation_status SubtaskStatus.awaiting_decision = CancellationStatus.awaiting_decision
cancellation_status SubtaskStatus.blocked = CancellationStatus.blocked
cancellation_status SubtaskStatus.done = CancellationStatus.done
cancellation_status SubtaskStatus.cancelled = CancellationStatus.cancelled

-- The arguments of `deriveCancellationClosure`.
unfoldable pub cancellation_nodes : List CancellationSubtaskFact → List Node
cancellation_nodes subtasks =
    map (λ s. record { id = s.id; dependencies = s.dependency_subtask_ids }) subtasks

unfoldable pub cancellation_facts : List CancellationSubtaskFact → List CancellationFact
cancellation_facts subtasks =
    map (λ s. record { subtask_id = s.id; status = cancellation_status s.status }) subtasks

-- The ids of the Subtasks with a status, sorted.
unfoldable pub ids_with : (SubtaskStatus → Bool) → List CancellationSubtaskFact → List String
unfolding sort_by text_le
ids_with test subtasks = sort_by text_le (map (λ s. s.id) (filter (λ s. test s.status) subtasks))

-- The task that the event and the snapshot name.
abbrev pub named_task : Event → Option TaskFact → Option TaskFact
named_task event task = elim (present event.task_id) [
  | none ↦ none
  | some task_id ↦ elim task [ none ↦ none | some t ↦ if t.id == task_id then some t else none ]
]

unfoldable pub decide_task_cancel : Event → TaskFact → TaskControlSnapshot → Decision
unfolding decision
decide_task_cancel event task snapshot =
    if is_closed task.status
    then decision event reject_request ("Task is already " ⧺ task_status_name task.status)
    else decision event (cancel_task task.id snapshot.generation_id)
        "durable Task cancellation fence authorized"

-- The branch of a partial result, with the generation at hand.
unfoldable pub decide_partial_result :
    Event → TaskFact → TaskControlSnapshot → String → ℕ → Decision
unfolding decision ids_with
decide_partial_result event task snapshot generation_id graph_revision =
    let refused =
      decision event reject_request "partial result is not ready for explicit acceptance" in
    elim (ids_with is_subtask_done snapshot.subtasks) [
      | [] ↦ refused
      | c ∷ cs ↦ elim snapshot.completion_blocked_reasons [
        | r ∷ rs ↦ refused
        | [] ↦
            if not (is_blocked task.status)
              || not snapshot.partial_cancellation
              || any (λ s. not (is_subtask_done s.status || is_subtask_cancelled s.status))
                  snapshot.subtasks
            then refused
            else decision event
                (accept_partial_result task.id generation_id graph_revision (c ∷ cs)
                  (ids_with is_subtask_cancelled snapshot.subtasks))
                "explicit partial result acceptance authorized"
      ]
    ]

-- The three events of `decideTaskControl`.
pub data ControlRequest : Type 0 where
  cancel_whole_task : ControlRequest
  cancel_some_subtasks : (targets : List String) → ControlRequest
  accept_partial : ControlRequest

module _ (host : Host) where
  -- The statuses that the closure was judged by, ordered by id.
  unfoldable pub expected_statuses :
      List CancellationSubtaskFact → List String → List (String × SubtaskStatus)
  unfolding sort_by
  expected_statuses subtasks ids =
      sort_by (λ l r. host.locale_le l.0 r.0)
        (map (λ s. (s.id, s.status)) (filter (λ s. contains ids s.id) subtasks))

  -- What follows once the closure is derived.
  unfoldable pub cancel_closure :
      Event → TaskFact → TaskControlSnapshot → String → ℕ → ClosureResult → Decision
  unfolding decision expected_statuses join
  cancel_closure event task snapshot generation_id graph_revision (rejected reason ids) =
      decision event reject_request
        ("Subtask cancellation rejected (" ⧺ rejection_name reason ⧺ "): " ⧺ join ", " ids)
  cancel_closure event task snapshot generation_id graph_revision (ok ids) =
      decision event
        (cancel_subtasks task.id generation_id graph_revision ids
          (expected_statuses snapshot.subtasks ids))
        "atomic downstream Subtask cancellation closure authorized"

  unfoldable pub decide_subtasks_cancel :
      Event → TaskFact → TaskControlSnapshot → String → ℕ → List String → Option Decision
  unfolding derive_cancellation_closure cancellation_nodes cancellation_facts cancel_closure
  decide_subtasks_cancel event task snapshot generation_id graph_revision targets =
      elim (derive_cancellation_closure host.locale_le (cancellation_nodes snapshot.subtasks)
        (cancellation_facts snapshot.subtasks) targets) [
          | none ↦ none
          | some result ↦
              some (cancel_closure event task snapshot generation_id graph_revision result)
        ]

  unfoldable pub decide_task_control :
      Event → ControlRequest → TaskControlSnapshot → Option Decision
  unfolding decision decide_task_cancel decide_subtasks_cancel decide_partial_result
  decide_task_control event request snapshot =
      let missing =
        some (decision event reject_request "active Work Graph generation is missing") in
      elim (named_task event snapshot.task) [
        | none ↦ some (decision event reject_request "Task control target is missing or stale")
        | some task ↦ elim request [
          | cancel_whole_task ↦ some (decide_task_cancel event task snapshot)
          | cancel_some_subtasks targets ↦ elim (present snapshot.generation_id) [
            | none ↦ missing
            | some generation_id ↦ elim snapshot.graph_revision [
              | none ↦ missing
              | some revision ↦
                  decide_subtasks_cancel event task snapshot generation_id revision targets
            ]
          ]
          | accept_partial ↦ elim (present snapshot.generation_id) [
            | none ↦ missing
            | some generation_id ↦ elim snapshot.graph_revision [
              | none ↦ missing
              | some revision ↦
                  some (decide_partial_result event task snapshot generation_id revision)
            ]
          ]
        ]
      ]
