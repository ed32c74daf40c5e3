-- ===== src/Execution/Completion/Model.antt =====
-- The types of src/execution/completion-protocol.ts.
use metaclaw.Base.{ℕ, Option, String, List, Bool}
use metaclaw.WorkGraph.{AcceptanceCriterion, RequiredItem}

pub data ErrorCode : Type 0 where
  completion_acceptance_mismatch completion_artifact_invalid completion_budget_exceeded
        completion_handoff_mismatch completion_malformed completion_subtask_mismatch :
      ErrorCode

unfoldable pub error_code_name : ErrorCode → String
error_code_name completion_acceptance_mismatch = "completion_acceptance_mismatch"
error_code_name completion_artifact_invalid = "completion_artifact_invalid"
error_code_name completion_budget_exceeded = "completion_budget_exceeded"
error_code_name completion_handoff_mismatch = "completion_handoff_mismatch"
error_code_name completion_malformed = "completion_malformed"
error_code_name completion_subtask_mismatch = "completion_subtask_mismatch"

pub record ContractViolation : Type 0 where
  pub code : ErrorCode
  pub path : String
  pub message : String

abbrev pub contract_violation : ErrorCode → String → String → ContractViolation
contract_violation c p m = record { code = c; path = p; message = m }

pub data FailureKind : Type 0 where
  capability_mismatch task_failed quality_failed : FailureKind

pub record Failure : Type 0 where
  pub kind : FailureKind
  pub code : String
  pub summary : String

pub data HandoffItem : Type 0 where
  text_item : (key value : String) → HandoffItem
  artifact_item : (key : String) (paths : List String) → HandoffItem

pub record Handoff : Type 0 where
  pub to_subtask_id : String
  pub items : List HandoffItem

pub record AcceptanceEvidence : Type 0 where
  pub key : String
  pub evidence : List String

pub record CompletedEnvelope : Type 0 where
  pub subtask_id : String
  pub acceptance_evidence : List AcceptanceEvidence
  pub artifacts : List String
  pub handoffs : List Handoff

pub data Envelope : Type 0 where
  completed : (envelope : CompletedEnvelope) → Envelope
  failed : (subtask_id : String) (failure : Failure) → Envelope

-- `CompletionReport`, by the schema that matched.
pub data Report : Type 0 where
  completed_report : (result_file_paths : Option (List String)) → Report
  failed_report : (failure : Failure) → Report

-- What `JSON.parse` and the zod schema make of the text of a report: the message of the error, the
-- issues with their paths, or the report.
pub data ReportParse : Type 0 where
  not_json : (message : String) → ReportParse
  invalid : (issues : List (List String × String)) → ReportParse
  valid : (report : Report) → ReportParse

pub data ProtocolResult : Type 0 where
  accepted :
      (body : String) (envelope : Envelope) (normalized_artifacts warnings : List String)
      → ProtocolResult
  rejected :
      (body : Option String) (envelope : Option Envelope) (violations : List ContractViolation)
      → ProtocolResult

pub record OutgoingHandoff : Type 0 where
  pub to_subtask_id : String
  pub required_items : List RequiredItem

pub record IncomingUsage : Type 0 where
  pub text_characters : ℕ
  pub artifact_paths : ℕ

-- The fields of the subtask that are read.
pub record AttemptSubtask : Type 0 where
  pub id : String
  pub acceptance : List AcceptanceCriterion

-- The file system, as it is during the call.
pub record FileSystem : Type 0 where
  pub exists : String → Bool
  pub realpath : String → String
  pub is_file : String → Bool
  pub is_absolute : String → Bool
  pub resolve : String → String → String
