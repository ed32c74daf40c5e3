-- ===== src/Kernel/Snapshot.antt =====
-- The snapshots and decisions of src/kernel/control-kernel.ts.
use metaclaw.Base.{ℕ, Bool, Option, String, List, Dict}
use metaclaw.WorkGraph.{Proposal}
use metaclaw.Resource.{
  NormalizedCapabilityRequest, CapabilityGrant, CapabilityGrantLimits, PermissionRule,
  ResourceClaim,
}
use metaclaw.Kernel.Failure.{KernelFailure}
use metaclaw.Kernel.Status.{StatusProjection}
use metaclaw.Kernel.Model.{
  TaskStatus, SubtaskStatus, AttemptKind, RecoveryMode, RecoverySafety, DispatchItemStatus,
  AttemptPayload, PlanTask, PlanProposed, ProposalSource, TerminalKind, Resolution,
  ResolutionSource, RecoveryResolution, Event,
}

pub record TaskFact : Type 0 where
  pub id : String
  pub status : TaskStatus

pub record SubtaskFact : Type 0 where
  pub id : String
  pub task_id : String
  pub status : SubtaskStatus
  pub preferred_agent_class_list : List String

pub record AttemptFact : Type 0 where
  pub attempt_id : String
  pub subtask_id : String
  pub agent_class_name : String
  pub attempt_kind : AttemptKind
  pub source_attempt_id : Option String
  pub terminal_kind : TerminalKind
  pub failure : Option KernelFailure
  pub completed_at : String

pub record CancellationSubtaskFact : Type 0 where
  pub fact : SubtaskFact
  pub open fact use *
  pub dependency_subtask_ids : List String

pub record DispatchItemFact : Type 0 where
  pub attempt_id : String
  pub subtask_id : String
  pub status : DispatchItemStatus
  pub order : ℕ

pub record RoutingExecutor : Type 0 where
  pub name : String
  pub routing_capabilities : List String

-- The parts of the catalog that admission reads.
pub record ExecutorCatalog : Type 0 where
  pub capabilities : List String
  pub executors : List RoutingExecutor

pub record PendingAuthorization : Type 0 where
  pub request_id : String
  pub task_id : String

pub record PlanAdmission : Type 0 where
  pub tasks : List TaskFact
  pub running_task_id : Option String
  pub executor_catalog : ExecutorCatalog
  pub executor_statuses : List StatusProjection
  pub v5_work_graph_task_ids : List String
  pub eligible_context_ref_keys : List String
  pub pending_authorization_request : Option PendingAuthorization

pub data GraphState : Type 0 where
  ready missing conflict : GraphState

pub data ReplanStatus : Type 0 where
  pending_quiescence planning submitted : ReplanStatus

pub record ReplanRequest : Type 0 where
  pub id : String
  pub status : ReplanStatus

pub record Dispatch : Type 0 where
  pub task : Option TaskFact
  pub running_task_id : Option String
  pub graph_state : GraphState
  pub subtasks : List SubtaskFact
  pub frontier : List String
  pub dispatch_items : List DispatchItemFact
  pub max_concurrent_attempts : ℕ
  pub available_slots : ℕ
  pub resource_conflict_subtask_ids : List String
  pub capacity_probe_agent_classes : Dict (List String)
  pub executor_statuses : List StatusProjection
  pub native_continuation_agent_classes : List String
  pub attempts : List AttemptFact
  pub generation_id : String
  pub graph_revision : ℕ
  pub automatic_replans_used : ℕ
  pub recovery_safety : RecoverySafety
  pub automatic_recovery_allowed : Bool
  pub resource_grants_by_subtask : Dict (List ResourceClaim)
  pub completion_blocked_reasons : List String
  pub generation_replan_request : Option ReplanRequest
  pub generation_quiescent : Bool

pub record TaskControlSnapshot : Type 0 where
  pub task : Option TaskFact
  pub generation_id : Option String
  pub graph_revision : Option ℕ
  pub subtasks : List CancellationSubtaskFact
  pub completion_blocked_reasons : List String
  pub partial_cancellation : Bool

pub record TimerSnapshot : Type 0 where
  pub task : Option TaskFact
  pub wake_authorized : Bool
  pub capacity_blocked_at : Option String
  pub recheck_after_ms : ℕ
  pub capacity_agent_classes : List String
  pub native_continuation_agent_classes : List String
  pub executor_statuses : List StatusProjection
  pub default_resource_grant : List ResourceClaim

pub data RecoveryItemKind : Type 0 where
  application effect : RecoveryItemKind

pub data RecoveryItemStatus : Type 0 where
  uncertain failed : RecoveryItemStatus

pub record RecoveryItem : Type 0 where
  pub id : String
  pub kind : RecoveryItemKind
  pub status : RecoveryItemStatus
  pub retry_safe : Bool

pub record RecoverySnapshot : Type 0 where
  pub task : Option TaskFact
  pub item : Option RecoveryItem

pub data RequestStatus : Type 0 where
  pending granted denied expired : RequestStatus

pub record PermissionSnapshot : Type 0 where
  pub request : Option NormalizedCapabilityRequest
  pub request_status : Option RequestStatus
  pub rules : List PermissionRule
  pub current_grants : List CapabilityGrant
  pub user_authorization_fingerprints : List String
  pub previously_denied_fingerprints : List String
  pub attempt_active : Bool
  pub workspace_id : Option String
  pub checkpoint_id : Option String

pub record PartitionSnapshot : Type 0 where
  pub conflict_confirmed : Bool
  pub workspace_id : Option String
  pub checkpoint_id : Option String

pub record SandboxRecovery : Type 0 where
  pub workspace_exists : Bool
  pub workspace_id : Option String
  pub checkpoint_id : Option String
  pub active_lease_ids : List String

-- A `plan_proposed` event that was deferred: its task id and its payload.
pub record DeferredPlan : Type 0 where
  pub task_id : Option String
  pub plan : PlanProposed

pub record AvailabilityRecovery : Type 0 where
  pub task : Option TaskFact
  pub active_generation_id : Option String
  pub active_graph_revision : Option ℕ
  pub deferred_plan : Option DeferredPlan
  pub executor_statuses : List StatusProjection

pub data Snapshot : Type 0 where
  plan_admission : PlanAdmission → Snapshot
  dispatch : Dispatch → Snapshot
  task_control : TaskControlSnapshot → Snapshot
  timer : TimerSnapshot → Snapshot
  recovery : RecoverySnapshot → Snapshot
  invalid : (reason : String) → Snapshot
  permission : PermissionSnapshot → Snapshot
  partition : PartitionSnapshot → Snapshot
  sandbox_recovery : SandboxRecovery → Snapshot
  availability_recovery : AvailabilityRecovery → Snapshot

pub record DispatchItem : Type 0 where
  pub subtask_id : String
  pub agent_class_name : String
  pub attempt_id : String
  pub attempt_kind : AttemptKind
  pub source_attempt_id : Option String
  pub recovery_mode : RecoveryMode
  pub default_resource_grant : List ResourceClaim
  pub order : ℕ
  pub attempt_payload : Option AttemptPayload

pub record Authorization : Type 0 where
  pub received_event_id : String
  pub resolution : Resolution
  pub source : ResolutionSource
  pub planner_plan_id : Option String

pub record TaskPlan : Type 0 where
  pub task_id : String
  pub task : PlanTask
  pub work_graph : Proposal
  pub generation_id : String
  pub graph_revision : ℕ
  pub proposal_source : ProposalSource

pub data Action : Type 0 where
  reject_request : Action
  request_clarification : (question : String) → Action
  deliver_direct_reply : (response : String) → Action
  no_op : Action
  authorize_task_plan : TaskPlan → Action
  authorize_task_control : (task : PlanTask) → Action
  dispatch_batch : (task_id : String) (items : List DispatchItem) → Action
  probe_capacity : (task_id subtask_id agent_class_name : String) → Action
  wait_for_capacity : (task_id subtask_id : String) → Action
  wait_for_retry :
      (task_id subtask_id resume_at agent_class_name source_attempt_id : String) → Action
  request_replan : (task_id generation_id : String) (source_revision : ℕ) → Action
  queue_generation_replan :
      (task_id generation_id : String) (source_revision : ℕ) (request_id : String) → Action
  defer_task_plan_for_availability :
      (task_id : String) (proposal_event : Event) (unavailable_agent_class_names : List String)
      (explanation : String)
      → Action
  activate_deferred_task_plan : (replan_request_id : String) (plan : TaskPlan) → Action
  cancel_task : (task_id : String) (generation_id : Option String) → Action
  cancel_subtasks :
      (task_id generation_id : String) (graph_revision : ℕ) (subtask_ids : List String)
      (expected_statuses : List (String × SubtaskStatus))
      → Action
  accept_partial_result :
      (task_id generation_id : String) (graph_revision : ℕ)
      (completed_subtask_ids cancelled_subtask_ids : List String)
      → Action
  request_merge_replan : (task_id subtask_id publication_id conflict_chain_id : String) → Action
  resolve_recovery : (task_id recovery_item_id : String) (resolution : RecoveryResolution) → Action
  block_work : (task_id : String) (subtask_id : Option String) → Action
  park_for_replan : (task_id : String) → Action
  complete_task : (task_id : String) → Action
  record_permission_resolution :
      (task_id request_id : String) (resolution : Resolution) (planner_plan_id : String) → Action
  grant_capability :
      (request_id : String) (limits : CapabilityGrantLimits) (rule_id : String)
      (authorization : Option Authorization)
      → Action
  deny_capability : (request_id : String) (authorization : Option Authorization) → Action
  escalate_capability : (request_id : String) → Action
  wait_for_partition : (task_id subtask_id : String) (conflicting_lease_ids : List String) → Action
  recover_workspace_attempt :
      (task_id subtask_id workspace_id : String) (checkpoint_id request_id : Option String)
      (authorization : Option Authorization)
      → Action

pub record Decision : Type 0 where
  pub id : String
  pub event_id : String
  pub action : Action
  pub reason : String
