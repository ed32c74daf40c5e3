-- ===== src/Kernel/Decide/Repair.antt =====
-- `decideContractFailure` and `decideMergeConflict` of src/kernel/control-kernel.ts.
pub mod Merge
use metaclaw.Base.{
  ℕ, ◌+◌, Bool, true, false, ◌&&◌, ◌||◌, not, if◌then◌else◌, Option, none, some, get_or, String,
  ◌⧺◌, ◌==◌, eqb, ltb, leb, List, [], ◌∷◌, map, filter, find, head?, length, contains, same,
  sort_by, text_le, show_nat,
}
use metaclaw.Host.{Host}
use metaclaw.Kernel.Failure.{
  KernelFailure, FailureKind, network, timeout, infrastructure, heartbeat_lost, permission,
  authentication, configuration, adapter, capability_mismatch, task_failed, quality_failed, stale,
  unknown,
}
use metaclaw.Kernel.Model.{
  Event, ExecutionOutcome, HandoffContractFailed, MergeConflict, TerminalKind, failed,
  SubtaskStatus, TaskStatus, RecoverySafety, external_non_idempotent, AttemptKind, fallback,
  contract_correction, merge_repair, native_session, recovery_packet, completion_correction,
  AttemptPayload,
}
use metaclaw.Kernel.Snapshot.{
  TaskFact, SubtaskFact, AttemptFact, Dispatch, Decision, block_work, park_for_replan, no_op,
  wait_for_capacity, wait_for_retry, queue_generation_replan, request_merge_replan,
}
use metaclaw.Kernel.Select.{
  present, decision, first_return, single_dispatch_batch, resource_grant_for_subtask,
  next_usable_agent_class, generation_replan_request_id,
}
use metaclaw.Kernel.Decide.Dispatch.{is_correction, decide_dispatch}

unfoldable pub decide_contract_failure : Event → HandoffContractFailed → Dispatch → Decision
unfolding decision single_dispatch_batch resource_grant_for_subtask
decide_contract_failure event report snapshot =
    let incomplete =
      decision event (block_work (get_or event.task_id "") event.subtask_id)
        "contract failure identity is incomplete" in
    elim (present event.task_id) [
      | none ↦ incomplete
      | some task_id ↦ elim (present event.subtask_id) [
        | none ↦ incomplete
        | some subtask_id ↦
            if not (eqb report.receipt_count 1)
            then decision event (block_work task_id (some subtask_id))
                "contract retry is already exhausted"
            else decision event
                (single_dispatch_batch event task_id subtask_id report.agent_class_name
                  contract_correction event.attempt_id recovery_packet
                  (resource_grant_for_subtask snapshot subtask_id)
                  (some (completion_correction report.contract report.violations)))
                "one full contract retry authorized"
      ]
    ]

-- What follows once the facts are complete.
unfoldable pub merge_conflict_for : Event → MergeConflict → Dispatch → String → String → Decision
unfolding decision single_dispatch_batch resource_grant_for_subtask show_nat sort_by text_le
merge_conflict_for event conflict snapshot task_id subtask_id =
    if ltb conflict.repair_attempts_used 3
    then (if eqb snapshot.available_slots 0
        then decision event (wait_for_capacity task_id subtask_id)
            "merge repair is waiting for an attempt slot"
        else decision event
            (single_dispatch_batch event task_id subtask_id conflict.agent_class_name
              AttemptKind.merge_repair (some conflict.source_attempt_id)
              (if contains snapshot.native_continuation_agent_classes conflict.agent_class_name
                then native_session
                else recovery_packet)
              (resource_grant_for_subtask snapshot subtask_id)
              (some (
                AttemptPayload.merge_repair conflict.publication_id conflict.conflict_chain_id
                  (sort_by text_le conflict.conflicting_paths))))
            ("merge repair " ⧺ show_nat (conflict.repair_attempts_used + 1) ⧺ " of 3 authorized"))
    else if ltb conflict.conflict_replans_used 1
    then decision event
        (request_merge_replan task_id subtask_id conflict.publication_id conflict.conflict_chain_id)
        "three merge repairs failed; one conflict replan is authorized"
    else decision event (park_for_replan task_id)
        "merge repair and conflict replan budgets are exhausted"

unfoldable pub decide_merge_conflict : Event → MergeConflict → Dispatch → Decision
unfolding decision merge_conflict_for
decide_merge_conflict event conflict snapshot =
    let incomplete =
      decision event (block_work (get_or event.task_id "") event.subtask_id)
        "merge conflict facts are incomplete" in
    elim (present event.task_id) [
      | none ↦ incomplete
      | some task_id ↦ elim (present event.subtask_id) [
        | none ↦ incomplete
        | some subtask_id ↦ elim conflict.conflicting_paths [
          | [] ↦ incomplete
          | p ∷ ps ↦ merge_conflict_for event conflict snapshot task_id subtask_id
        ]
      ]
    ]
