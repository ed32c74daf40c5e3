-- ===== src/Kernel/Decide/Timer.antt =====
-- `decideTimer` and `decideRecovery` of src/kernel/control-kernel.ts.
pub mod Wake
use metaclaw.Base.{
  ℕ, ◌-◌, Bool, true, false, ◌&&◌, ◌||◌, not, if◌then◌else◌, Option, none, some, get_or, String,
  ◌⧺◌, ◌==◌, ltb, leb, List, [], ◌∷◌, map, filter, find, any, contains, join, sort_by, text_le,
}
use metaclaw.Host.{Host}
use metaclaw.WorkGraph.Cancellation.{
  CancellationStatus, CancellationFact, Node, RejectionReason, empty_targets, unknown_subtask,
  already_done, already_cancelled, ClosureResult, ok, rejected, derive_cancellation_closure,
}
use metaclaw.Kernel.Model.{
  Event, TaskStatus, SubtaskStatus, WakeKind, capacity, retry, availability, TimerTick,
  RecoveryResolution, assume_applied, continuation, native_session, recovery_packet,
}
use metaclaw.Kernel.Snapshot.{
  TaskFact, CancellationSubtaskFact, TaskControlSnapshot, TimerSnapshot, RecoverySnapshot, Decision,
  reject_request, cancel_task, cancel_subtasks, accept_partial_result, no_op, probe_capacity,
  block_work, resolve_recovery,
}
use metaclaw.Kernel.Select.{present, decision, single_dispatch_batch, unavailable_agent_classes}
use metaclaw.Kernel.Decide.Control.{named_task, is_blocked}

module _ (host : Host) where
  -- `Date.parse(left) < Date.parse(right)`, false when either is NaN.
  unfoldable pub earlier : String → String → Bool
  earlier left right = elim (host.parse_date left) [
    | none ↦ false
    | some l ↦ elim (host.parse_date right) [ none ↦ false | some r ↦ ltb l r ]
  ]

  -- The interval since the block has not passed, or a time is no date. The difference is
  -- negative, and so too small, when the block lies in the future; then it must be compared as
  -- one, as an interval of 0 would not tell.
  unfoldable pub too_early : (now blocked_at : String) → ℕ → Bool
  too_early now blocked_at interval = elim (host.parse_date now) [
    | none ↦ true
    | some n ↦ elim (host.parse_date blocked_at) [
      | none ↦ true
      | some b ↦ ltb n b || ltb (n - b) interval
    ]
  ]

  unfoldable pub decide_retry_wake : Event → TimerTick → TimerSnapshot → String → Decision
  unfolding decision single_dispatch_batch earlier
  decide_retry_wake event tick snapshot task_id =
      let refused = decision event no_op "retry wake is incomplete or early" in
      elim (present event.subtask_id) [
        | none ↦ refused
        | some subtask_id ↦ elim tick.retry [
          | none ↦ refused
          | some r ↦
              if earlier event.occurred_at tick.scheduled_for
              then refused
              else decision event
                  (single_dispatch_batch event task_id subtask_id r.agent_class_name continuation
                    (some r.source_attempt_id)
                    (if contains snapshot.native_continuation_agent_classes r.agent_class_name
                      then native_session
                      else recovery_packet)
                    snapshot.default_resource_grant none)
                  "preferred AgentClass continuation wake authorized"
        ]
      ]

  unfoldable pub decide_capacity_wake : Event → TimerSnapshot → String → Decision
  unfolding decision too_early unavailable_agent_classes
  decide_capacity_wake event snapshot task_id =
      let refused = decision event no_op "no capacity block is eligible" in
      elim (present event.subtask_id) [
        | none ↦ refused
        | some subtask_id ↦ elim (present snapshot.capacity_blocked_at) [
          | none ↦ refused
          | some blocked_at ↦
              if too_early event.occurred_at blocked_at snapshot.recheck_after_ms
              then decision event no_op "capacity recheck interval has not elapsed"
              else elim (present (
                  find
                    (λ name. not (
                      contains
                        (unavailable_agent_classes host snapshot.executor_statuses
                          event.occurred_at)
                        name))
                    snapshot.capacity_agent_classes)) [
                      | some candidate ↦
                          decision event (probe_capacity task_id subtask_id candidate)
                            "capacity timer recheck authorized"
                      | none ↦
                          decision event no_op
                            "no healthy AgentClass is eligible for capacity probe"
                    ]
        ]
      ]

  unfoldable pub decide_timer : Event → TimerTick → TimerSnapshot → Decision
  unfolding decision decide_retry_wake decide_capacity_wake
  decide_timer event tick snapshot =
      let refused =
        decision event no_op "timer wake is stale or no longer authorized by Task state" in
      elim (named_task event snapshot.task) [
        | none ↦ refused
        | some task ↦
            if not (is_blocked task.status) || not snapshot.wake_authorized
            then refused
            else elim tick.wake_kind [
              | retry ↦ decide_retry_wake event tick snapshot task.id
              | capacity ↦ decide_capacity_wake event snapshot task.id
              | availability ↦ decision event no_op "availability wake has no eligible work"
            ]
      ]

abbrev pub is_retry_resolution : RecoveryResolution → Bool
is_retry_resolution RecoveryResolution.retry = true
is_retry_resolution _ = false

abbrev pub resolution_name : RecoveryResolution → String
resolution_name RecoveryResolution.retry = "retry"
resolution_name assume_applied = "assume_applied"

unfoldable pub decide_recovery :
    Event → (recovery_item_id : String) → RecoveryResolution → RecoverySnapshot → Decision
unfolding decision
decide_recovery event recovery_item_id resolution snapshot =
    let stale =
      decision event (block_work (get_or event.task_id "") none)
        "recovery item is missing or stale" in
    elim (named_task event snapshot.task) [
      | none ↦ stale
      | some task ↦ elim snapshot.item [
        | none ↦ stale
        | some item ↦
            if not (item.id == recovery_item_id)
            then decision event (block_work task.id none) "recovery item identity mismatch"
            else if is_retry_resolution resolution && not item.retry_safe
            then decision event (block_work task.id none) "recovery retry cannot prove idempotency"
            else decision event (resolve_recovery task.id recovery_item_id resolution)
                ("manual recovery " ⧺ resolution_name resolution ⧺ " authorized")
      ]
    ]
