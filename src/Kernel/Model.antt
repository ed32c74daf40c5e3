-- ===== src/Kernel/Model.antt =====
-- The events, snapshots and decisions of src/kernel/control-kernel.ts. A `string` of a contract
-- that the kernel only passes on, such as a completion contract, is its JSON text.
use metaclaw.Base.{ℕ, Bool, Option, String, List}
use metaclaw.WorkGraph.{RiskLevel, Proposal}
use metaclaw.Resource.{NormalizedCapabilityRequest, ResourceClaim}
use metaclaw.Kernel.Failure.{KernelFailure}

pub data TaskStatus : Type 0 where
  created ready running parked blocked done archived cancelled : TaskStatus

pub data SubtaskStatus : Type 0 where
  ready running awaiting_integration awaiting_decision blocked done cancelled : SubtaskStatus

pub data AttemptKind : Type 0 where
  primary continuation fallback contract_correction merge_repair : AttemptKind

pub data RecoveryMode : Type 0 where
  native_session recovery_packet fresh : RecoveryMode

pub data RecoverySafety : Type 0 where
  read_only workspace_reconcilable external_non_idempotent : RecoverySafety

pub data DispatchItemStatus : Type 0 where
  pending_launch launching running cancelling terminal cancelled uncertain : DispatchItemStatus

pub record ContractViolation : Type 0 where
  pub code : String
  pub path : String
  pub message : String

pub data AttemptPayload : Type 0 where
  completion_correction :
      (completion_contract : String) (violations : List ContractViolation) → AttemptPayload
  merge_repair :
      (publication_id conflict_chain_id : String) (conflicting_paths : List String) → AttemptPayload

pub record Envelope : Type 0 where
  pub id : String
  pub correlation_id : String
  pub causation_id : Option String
  pub occurred_at : String
  pub session_id : String
  pub task_id : Option String
  pub subtask_id : Option String
  pub attempt_id : Option String

pub data PlanAction : Type 0 where
  direct_reply clarification task_control plan_work_graph authorization_resolution no_action :
      PlanAction

pub data TaskBinding : Type 0 where
  new reference none : TaskBinding

pub data TaskControl : Type 0 where
  clear_tasks status_query resume_task none : TaskControl

pub data PriorityLevel : Type 0 where
  normal high urgent : PriorityLevel

pub record Priority : Type 0 where
  pub level : PriorityLevel
  pub reason : String

pub record PlanTask : Type 0 where
  pub binding : TaskBinding
  pub task_id : Option String
  pub control : TaskControl
  pub scope : Option String
  pub title : Option String
  pub goal : Option String
  pub include_recent_conversation_context : Bool
  pub priority : Option Priority

pub data Resolution : Type 0 where
  approve deny : Resolution

pub record AuthorizationResolution : Type 0 where
  pub request_id : String
  pub resolution : Resolution

-- `confidence` is counted in millionths; the kernel compares it with 0.45 alone.
pub record PlanProposal : Type 0 where
  pub id : String
  pub action : PlanAction
  pub confidence : ℕ
  pub reason : String
  pub clarification_question : Option String
  pub direct_reply : Option String
  pub task : PlanTask
  pub risk_level : RiskLevel
  pub requires_confirmation : Bool
  pub risk_reasons : List String
  pub authorization_resolution : Option AuthorizationResolution
  pub work_graph : Option Proposal
  pub source : String

pub data ProposalSource : Type 0 where
  initial replan conflict_replan : ProposalSource

pub record PlanProposed : Type 0 where
  pub proposal : PlanProposal
  pub request_text : String
  pub generation_id : String
  pub proposal_source : ProposalSource
  pub target_graph_revision : ℕ
  pub availability_explanation : Option String

pub data TerminalKind : Type 0 where
  completed failed : TerminalKind

pub record CapacitySignal : Type 0 where
  pub agent_class_name : String
  pub available : Bool
  pub cycle_id : String
  pub attempt_kind : AttemptKind
  pub attempt_payload : Option AttemptPayload
  pub source_attempt_id : Option String

pub record ExecutionOutcome : Type 0 where
  pub terminal_kind : TerminalKind
  pub agent_class_name : String
  pub attempt_kind : AttemptKind
  pub source_attempt_id : Option String
  pub failure : Option KernelFailure

pub record HandoffContractFailed : Type 0 where
  pub work_unit_id : String
  pub agent_class_name : String
  pub contract : String
  pub violations : List ContractViolation
  pub receipt_count : ℕ
  pub response_bytes : ℕ

pub data WakeKind : Type 0 where
  capacity retry availability : WakeKind

pub record Retry : Type 0 where
  pub agent_class_name : String
  pub source_attempt_id : String

pub record TimerTick : Type 0 where
  pub wake_kind : WakeKind
  pub source_decision_id : String
  pub scheduled_for : String
  pub retry : Option Retry

pub data RecoveryResolution : Type 0 where
  assume_applied retry : RecoveryResolution

pub data ResolutionSource : Type 0 where
  command button planner : ResolutionSource

pub record MergeConflict : Type 0 where
  pub publication_id : String
  pub conflict_chain_id : String
  pub agent_class_name : String
  pub source_attempt_id : String
  pub repair_attempts_used : ℕ
  pub conflict_replans_used : ℕ
  pub conflicting_paths : List String

pub data Payload : Type 0 where
  plan_proposed : PlanProposed → Payload
  executor_recovered : (agent_class_name recovery_check_id : String) → Payload
  dispatch_requested : (reason : String) → Payload
  capacity_signal : CapacitySignal → Payload
  execution_outcome : ExecutionOutcome → Payload
  handoff_contract_failed : HandoffContractFailed → Payload
  timer_tick : TimerTick → Payload
  recovery_resolution_requested :
      (recovery_item_id : String) (resolution : RecoveryResolution) → Payload
  permission_requested : (request : NormalizedCapabilityRequest) → Payload
  permission_review_represented : (request_id request_fingerprint : String) → Payload
  permission_resolution_received :
      (request_id : String) (resolution : Resolution) (source : ResolutionSource)
      (planner_plan_id : Option String)
      → Payload
  partition_conflict_observed :
      (claims : List ResourceClaim) (conflicting_lease_ids : List String) → Payload
  sandbox_lost :
      (runtime_handle : Option String) (workspace_id : String) (checkpoint_id : Option String)
      → Payload
  merge_conflict_observed : MergeConflict → Payload
  task_cancel_requested : (reason : String) → Payload
  subtasks_cancel_requested : (target_subtask_ids : List String) (reason : String) → Payload
  partial_result_acceptance_requested : Payload
  generation_quiescence_observed :
      (request_id generation_id : String) (source_revision : ℕ) → Payload

pub record Event : Type 0 where
  pub envelope : Envelope
  pub open envelope use *
  pub payload : Payload
