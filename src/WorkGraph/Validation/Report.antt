-- ===== src/WorkGraph/Validation/Report.antt =====
-- The violations of src/work-graph/validation.ts.
use metaclaw.Base.{ℕ, String, ◌⧺◌, List, show_nat}

pub data ViolationCode : Type 0 where
  acceptance_count_invalid dependency_cycle dependency_items_count_invalid description_invalid
        duplicate_acceptance_key duplicate_context_ref duplicate_dependency
        duplicate_dependency_item_key duplicate_subtask_id empty_subtask_id empty_work_graph
        evidence_requirements_count_invalid invalid_key mergeable_same_agent_chain
        missing_entry_node self_dependency too_many_context_refs unknown_dependency :
      ViolationCode

pub record Violation : Type 0 where
  pub code : ViolationCode
  pub subtask_ids : List String
  pub path : String
  pub message : String

abbrev pub violation : ViolationCode → List String → String → String → Violation
violation c ids p m = record { code = c; subtask_ids = ids; path = p; message = m }

unfoldable pub code_name : ViolationCode → String
code_name acceptance_count_invalid = "acceptance_count_invalid"
code_name dependency_cycle = "dependency_cycle"
code_name dependency_items_count_invalid = "dependency_items_count_invalid"
code_name description_invalid = "description_invalid"
code_name duplicate_acceptance_key = "duplicate_acceptance_key"
code_name duplicate_context_ref = "duplicate_context_ref"
code_name duplicate_dependency = "duplicate_dependency"
code_name duplicate_dependency_item_key = "duplicate_dependency_item_key"
code_name duplicate_subtask_id = "duplicate_subtask_id"
code_name empty_subtask_id = "empty_subtask_id"
code_name empty_work_graph = "empty_work_graph"
code_name evidence_requirements_count_invalid = "evidence_requirements_count_invalid"
code_name invalid_key = "invalid_key"
code_name mergeable_same_agent_chain = "mergeable_same_agent_chain"
code_name missing_entry_node = "missing_entry_node"
code_name self_dependency = "self_dependency"
code_name too_many_context_refs = "too_many_context_refs"
code_name unknown_dependency = "unknown_dependency"

-- `${base}.${index}`
unfoldable pub at_index : String → ℕ → String
at_index base index = base ⧺ "." ⧺ show_nat index
