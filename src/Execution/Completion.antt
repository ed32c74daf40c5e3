-- ===== src/Execution/Completion.antt =====
-- src/execution/completion-protocol.ts: what an agent returns is parsed, turned into an envelope and
-- checked.
pub mod Model
pub mod Parse
pub mod Files
pub mod Checks
pub mod Budgets
pub mod Contained
pub mod Fits
pub mod Keys
pub mod Accepted
use metaclaw.Base.{
  Bool, true, false, ◌&&◌, not, if◌then◌else◌, Option, none, some, get_or, ◌==◌, String, ◌⧺◌, List,
  [], ◌∷◌, ◌++◌, map, join, sort_by, Dict,
}
use metaclaw.WorkGraph.{RequiredItem, ItemType, text, artifact}
use metaclaw.Execution.Completion.Model.{
  ContractViolation, contract_violation, completion_subtask_mismatch, error_code_name, Report,
  completed_report, failed_report, ReportParse, Envelope, completed, failed, CompletedEnvelope,
  HandoffItem, text_item, artifact_item, Handoff, ProtocolResult, accepted, rejected,
  OutgoingHandoff, IncomingUsage, AttemptSubtask, FileSystem,
}
use metaclaw.Execution.Completion.Parse.{parse_completion, parse_ok, parse_failed}
use metaclaw.Execution.Completion.Files.{validate_result_files}
use metaclaw.Execution.Completion.Checks.{validate_acceptance, validate_handoffs}
use metaclaw.Execution.Completion.Budgets.{validate_budgets}

-- The item that the contract of a handoff asks for: the description, or all the artifacts.
handoff_item : ItemType → String → String → List String → HandoffItem
handoff_item text key body artifacts = text_item key (join "\n" (body ∷ []))
handoff_item artifact key body artifacts = artifact_item key artifacts

unfoldable pub materialize_completed :
    String → AttemptSubtask → List OutgoingHandoff → List String → CompletedEnvelope
unfolding handoff_item join
materialize_completed body subtask outgoing artifacts = record {
  subtask_id = subtask.id;
  acceptance_evidence = map (λ a. record { key = a.key; evidence = body ∷ [] }) subtask.acceptance;
  artifacts = artifacts;
  handoffs =
      map
        (λ c. record {
          to_subtask_id = c.to_subtask_id;
          items = map (λ i. handoff_item i.type i.key body artifacts) c.required_items;
        })
        outgoing;
}

module _ (locale_le : String → String → Bool) where
  -- `localeCompare` on three keys in turn, not positive.
  violation_le : ContractViolation → ContractViolation → Bool
  unfolding error_code_name
  violation_le left right =
      let tie = λ (a b : String). locale_le a b && locale_le b a in
      if not (tie (error_code_name left.code) (error_code_name right.code))
      then locale_le (error_code_name left.code) (error_code_name right.code)
      else if not (tie left.path right.path)
      then locale_le left.path right.path
      else locale_le left.message right.message

module _ (locale_le : String → String → Bool) (parse_report : String → ReportParse)
    (fs : FileSystem) (subtask : AttemptSubtask) (outgoing : List OutgoingHandoff) (root : String)
    (incoming : Dict IncomingUsage) where
  unfoldable pub completed_violations :
      List ContractViolation → CompletedEnvelope → List ContractViolation
  unfolding validate_acceptance validate_handoffs validate_budgets
  completed_violations of_files envelope =
      of_files
      ++ ((if not (envelope.subtask_id == subtask.id)
            then contract_violation completion_subtask_mismatch "subtaskId"
                ("expected " ⧺ subtask.id ⧺ ", received " ⧺ envelope.subtask_id)
              ∷ []
            else [])
          ++ (validate_acceptance subtask envelope
              ++ (validate_handoffs outgoing envelope ++ validate_budgets incoming envelope)))

  judge_violations :
      String → CompletedEnvelope → List String → List ContractViolation → ProtocolResult
  unfolding violation_le
  judge_violations body envelope artifacts [] = accepted body (completed envelope) artifacts []
  judge_violations body envelope artifacts (v ∷ vs) =
      rejected (some body) (some (completed envelope)) (sort_by (violation_le locale_le) (v ∷ vs))

  unfoldable pub judge_report : String → Report → ProtocolResult
  unfolding validate_result_files materialize_completed completed_violations judge_violations
  judge_report body (failed_report failure) = accepted body (failed subtask.id failure) [] []
  judge_report body (completed_report paths) =
      let (of_files, artifacts) = validate_result_files fs root (get_or paths []) in
      let envelope = materialize_completed body subtask outgoing artifacts in
      judge_violations body envelope artifacts (completed_violations of_files envelope)

  unfoldable pub validate_completion_protocol : String → ProtocolResult
  unfolding parse_completion judge_report
  validate_completion_protocol raw = elim (parse_completion parse_report raw) [
    | parse_failed body violations ↦ rejected body none violations
    | parse_ok body report ↦ judge_report body report
  ]
