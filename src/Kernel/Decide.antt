-- ===== src/Kernel/Decide.antt =====
-- `ControlKernel.decide` of src/kernel/control-kernel.ts.
pub mod Dispatch
pub mod Recovery
pub mod Repair
pub mod Control
pub mod Timer
pub mod Permission
pub mod Plan
use metaclaw.Base.{Bool, true, false, Option, none, some, get_or, String, List}
use metaclaw.Host.{Host}
use metaclaw.Planning.{Parsed}
use metaclaw.Kernel.Model.{
  Event, PlanProposal, Payload, plan_proposed, executor_recovered, dispatch_requested,
  capacity_signal, execution_outcome, handoff_contract_failed, timer_tick,
  recovery_resolution_requested, permission_requested, permission_review_represented,
  permission_resolution_received, partition_conflict_observed, sandbox_lost,
  merge_conflict_observed, task_cancel_requested, subtasks_cancel_requested,
  partial_result_acceptance_requested, generation_quiescence_observed,
}
use metaclaw.Kernel.Snapshot.{
  Snapshot, plan_admission, dispatch, task_control, timer, recovery, invalid, permission, partition,
  sandbox_recovery, availability_recovery, Decision, block_work,
}
use metaclaw.Kernel.Select.{decision}
use metaclaw.Kernel.Decide.Dispatch.{decide_dispatch, decide_capacity, decide_generation_quiescence}
use metaclaw.Kernel.Decide.Recovery.{decide_outcome}
use metaclaw.Kernel.Decide.Repair.{decide_contract_failure, decide_merge_conflict}
use metaclaw.Kernel.Decide.Control.{
  cancel_whole_task, cancel_some_subtasks, accept_partial, decide_task_control,
}
use metaclaw.Kernel.Decide.Timer.{decide_timer, decide_recovery}
use metaclaw.Kernel.Decide.Permission.{
  requested, represented, resolved, decide_permission, decide_partition_conflict,
  decide_sandbox_recovery,
}
use metaclaw.Kernel.Decide.Plan.{decide_plan}
use metaclaw.Kernel.Decide.Plan.Graph.{decide_availability_recovery}

-- The decision on an event and a snapshot that does not belong to it.
unfoldable pub mismatch : Event → Decision
unfolding decision
mismatch event =
    decision event (block_work (get_or event.task_id "") event.subtask_id)
      "event and snapshot do not match"

module _ (host : Host) (safe_parse : PlanProposal → Parsed) where
  -- `decide` with `snapshotMatches`, the payload first. `none` is an error that a handler throws.
  unfoldable pub decide_payload : Event → Payload → Snapshot → Option Decision
  unfolding decide_plan decide_availability_recovery decide_dispatch decide_capacity
      decide_generation_quiescence decide_outcome decide_contract_failure decide_merge_conflict
      decide_task_control decide_timer decide_recovery decide_permission decide_partition_conflict
      decide_sandbox_recovery mismatch
  decide_payload event (plan_proposed p) (plan_admission s) =
      some (decide_plan host safe_parse event p s)
  decide_payload event (executor_recovered a c) (availability_recovery s) =
      some (decide_availability_recovery host event s)
  decide_payload event (dispatch_requested r) (dispatch s) = some (decide_dispatch host event s)
  decide_payload event (capacity_signal c) (dispatch s) = some (decide_capacity host event c s)
  decide_payload event (execution_outcome o) (dispatch s) = some (decide_outcome host event o s)
  decide_payload event (handoff_contract_failed h) (dispatch s) =
      some (decide_contract_failure event h s)
  decide_payload event (timer_tick t) (timer s) = some (decide_timer host event t s)
  decide_payload event (recovery_resolution_requested i r) (recovery s) =
      some (decide_recovery event i r s)
  decide_payload event (permission_requested r) (permission s) =
      decide_permission host event requested s
  decide_payload event (permission_review_represented i f) (permission s) =
      decide_permission host event (represented i f) s
  decide_payload event (permission_resolution_received i r o p) (permission s) =
      decide_permission host event (resolved i r o p) s
  decide_payload event (partition_conflict_observed c l) (partition s) =
      some (decide_partition_conflict event l s)
  decide_payload event (sandbox_lost h w c) (sandbox_recovery s) =
      some (decide_sandbox_recovery event w s)
  decide_payload event (merge_conflict_observed m) (dispatch s) =
      some (decide_merge_conflict event m s)
  decide_payload event (task_cancel_requested r) (task_control s) =
      decide_task_control host event cancel_whole_task s
  decide_payload event (subtasks_cancel_requested t r) (task_control s) =
      decide_task_control host event (cancel_some_subtasks t) s
  decide_payload event partial_result_acceptance_requested (task_control s) =
      decide_task_control host event accept_partial s
  decide_payload event (generation_quiescence_observed i g r) (dispatch s) =
      some (decide_generation_quiescence event i g r s)
  decide_payload event payload snapshot = some (mismatch event)

  unfoldable pub decide : Event → Snapshot → Option Decision
  unfolding decide_payload
  decide event snapshot = decide_payload event event.payload snapshot
