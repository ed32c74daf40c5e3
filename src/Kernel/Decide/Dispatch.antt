-- ===== src/Kernel/Decide/Dispatch.antt =====
-- `decideDispatch`, `decideCapacity` and `decideGenerationQuiescence` of
-- src/kernel/control-kernel.ts.
pub mod Guarantees
use metaclaw.Base.{
  ℕ, Bool, true, false, ◌&&◌, ◌||◌, not, if◌then◌else◌, Option, none, some, get_or, String, ◌⧺◌,
  ◌==◌, eqb, List, [], ◌∷◌, all, any, find, head?, join, get, same, is_some, contains,
}
use metaclaw.Host.{Host}
use metaclaw.Kernel.Model.{
  Event, CapacitySignal, SubtaskStatus, AttemptKind, primary, contract_correction, fresh,
  recovery_packet,
}
use metaclaw.Kernel.Snapshot.{
  SubtaskFact, Dispatch, GraphState, missing, conflict, ReplanStatus, pending_quiescence, Decision,
  block_work, park_for_replan, request_replan, no_op, complete_task, wait_for_capacity,
  dispatch_batch, probe_capacity,
}
use metaclaw.Kernel.Select.{
  present, decision, select_dispatchable_subtasks, dispatch_batch_items, single_dispatch_batch,
  is_pending_or_active_dispatch, resource_grant_for_subtask, next_usable_agent_class,
}

abbrev pub graph_state_name : GraphState → String
graph_state_name GraphState.ready = "ready"
graph_state_name missing = "missing"
graph_state_name conflict = "conflict"

abbrev pub is_graph_ready : GraphState → Bool
is_graph_ready GraphState.ready = true
is_graph_ready _ = false

abbrev pub is_done : SubtaskStatus → Bool
is_done SubtaskStatus.done = true
is_done _ = false

abbrev pub is_in_progress : SubtaskStatus → Bool
is_in_progress SubtaskStatus.running = true
is_in_progress SubtaskStatus.awaiting_integration = true
is_in_progress _ = false

abbrev pub is_pending_quiescence : ReplanStatus → Bool
is_pending_quiescence pending_quiescence = true
is_pending_quiescence _ = false

-- `snapshot.generationReplanRequest?.status === 'pending_quiescence'`
abbrev pub replan_pending : Dispatch → Bool
replan_pending snapshot = elim snapshot.generation_replan_request [
  | none ↦ false
  | some r ↦ is_pending_quiescence r.status
]

abbrev pub all_done : Dispatch → Bool
all_done snapshot = elim snapshot.subtasks [
  | [] ↦ false
  | s ∷ rest ↦ all (λ t. is_done t.status) (s ∷ rest)
]

abbrev pub in_progress : Dispatch → Bool
in_progress snapshot =
    any (λ i. is_pending_or_active_dispatch i.status) snapshot.dispatch_items
    || any (λ s. is_in_progress s.status) snapshot.subtasks

-- `snapshot.runningTaskId && snapshot.runningTaskId !== taskId`
abbrev pub other_task_runs : Option String → String → Bool
other_task_runs running task_id = elim (present running) [
  | none ↦ false
  | some id ↦ not (id == task_id)
]

abbrev pub is_correction : AttemptKind → Bool
is_correction contract_correction = true
is_correction _ = false

-- The branch of `decideDispatch` without a dispatchable Subtask.
unfoldable pub decide_idle : Event → Dispatch → String → Decision
unfolding decision join
decide_idle event snapshot task_id =
    if replan_pending snapshot
    then (if snapshot.generation_quiescent
        then decision event (request_replan task_id snapshot.generation_id snapshot.graph_revision)
            "generation is quiescent; the coalesced automatic replan may start"
        else decision event no_op "generation replan is waiting for quiescence")
    else if all_done snapshot
    then elim snapshot.completion_blocked_reasons [
      | [] ↦
          decision event (complete_task task_id)
            "all Subtasks completed and runtime residue is clear"
      | r ∷ rs ↦ decision event no_op ("Task completion is waiting for: " ⧺ join ", " (r ∷ rs))
    ]
    else if in_progress snapshot
    then decision event no_op "work is already executing or awaiting publication"
    else decision event (block_work task_id none) "no runnable Subtask while work remains"

-- `!event.taskId || !snapshot.task || snapshot.task.id !== event.taskId`, negated.
abbrev pub target_task : Event → Dispatch → Option String
target_task event snapshot = elim (present event.task_id) [
  | none ↦ none
  | some task_id ↦ elim snapshot.task [
    | none ↦ none
    | some task ↦ if task.id == task_id then some task_id else none
  ]
]

module _ (host : Host) where
  unfoldable pub dispatch_selected : Event → Dispatch → String → List SubtaskFact → Decision
  unfolding decision dispatch_batch_items decide_idle
  dispatch_selected event snapshot task_id [] = decide_idle event snapshot task_id
  dispatch_selected event snapshot task_id (first ∷ others) =
      elim (dispatch_batch_items host event snapshot (first ∷ others)) [
        | [] ↦
            decision event (wait_for_capacity task_id first.id)
              "all runnable Subtasks lack an available authorized AgentClass"
        | i ∷ is ↦ decision event (dispatch_batch task_id (i ∷ is)) "dispatch batch authorized"
      ]

  unfoldable pub decide_dispatch : Event → Dispatch → Decision
  unfolding decision dispatch_selected select_dispatchable_subtasks
  decide_dispatch event snapshot = elim (target_task event snapshot) [
    | none ↦
        decision event (block_work (get_or event.task_id "") event.subtask_id)
          "dispatch task is missing or stale"
    | some task_id ↦
        if not (is_graph_ready snapshot.graph_state)
        then decision event (park_for_replan task_id)
            ("work graph is " ⧺ graph_state_name snapshot.graph_state ⧺ "; replanning is required")
        else if other_task_runs snapshot.running_task_id task_id
        then decision event (block_work task_id event.subtask_id)
            ("single-active Task constraint: " ⧺ get_or snapshot.running_task_id "")
        else dispatch_selected event snapshot task_id (select_dispatchable_subtasks snapshot)
  ]

  -- The Subtask of a capacity signal.
  unfoldable pub capacity_subtask : Event → Dispatch → Option SubtaskFact
  unfolding select_dispatchable_subtasks
  capacity_subtask event snapshot =
      elim (find (λ s. same (some s.id) event.subtask_id) snapshot.subtasks) [
        | some s ↦ some s
        | none ↦ head? (select_dispatchable_subtasks snapshot)
      ]

  -- What follows once the task and the Subtask are known.
  unfoldable pub capacity_for : Event → CapacitySignal → Dispatch → String → SubtaskFact → Decision
  unfolding decision single_dispatch_batch resource_grant_for_subtask next_usable_agent_class get
  capacity_for event signal snapshot task_id subtask =
      let grant = resource_grant_for_subtask snapshot subtask.id in
      if is_correction signal.attempt_kind
      then (if signal.available
          then decision event
              (single_dispatch_batch event task_id subtask.id signal.agent_class_name
                contract_correction signal.source_attempt_id recovery_packet grant
                signal.attempt_payload)
              "full contract retry capacity confirmed"
          else decision event (block_work task_id (some subtask.id))
              "full contract retry capacity unavailable")
      else if signal.available
      then decision event
          (single_dispatch_batch event task_id subtask.id signal.agent_class_name primary none fresh
            grant none)
          "capacity confirmed"
      else elim (next_usable_agent_class host subtask snapshot event.occurred_at (
          signal.agent_class_name
          ∷ get_or (get subtask.id snapshot.capacity_probe_agent_classes) [])) [
            | some name ↦
                decision event (probe_capacity task_id subtask.id name)
                  "try next authorized AgentClass"
            | none ↦
                decision event (wait_for_capacity task_id subtask.id)
                  "authorized AgentClass capacity exhausted"
          ]

  unfoldable pub decide_capacity : Event → CapacitySignal → Dispatch → Decision
  unfolding decision capacity_subtask capacity_for
  decide_capacity event signal snapshot =
      let refused =
        decision event (block_work (get_or event.task_id "") event.subtask_id)
          "capacity signal has no ready work" in
      elim (present event.task_id) [
        | none ↦ refused
        | some task_id ↦ elim (capacity_subtask event snapshot) [
          | none ↦ refused
          | some subtask ↦ capacity_for event signal snapshot task_id subtask
        ]
      ]

unfoldable pub decide_generation_quiescence :
    Event → (request_id generation_id : String) (source_revision : ℕ) → Dispatch → Decision
unfolding decision
decide_generation_quiescence event request_id generation_id source_revision snapshot =
    let stale = decision event no_op "generation quiescence observation is stale or incomplete" in
    elim (present event.task_id) [
      | none ↦ stale
      | some task_id ↦ elim snapshot.generation_replan_request [
        | none ↦ stale
        | some request ↦
            if (request.id == request_id)
              && is_pending_quiescence request.status
              && (generation_id == snapshot.generation_id)
              && eqb source_revision snapshot.graph_revision
              && snapshot.generation_quiescent
            then decision event (request_replan task_id generation_id source_revision)
                "generation quiescence token accepted"
            else stale
      ]
    ]
