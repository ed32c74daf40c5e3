-- ===== src/WorkGraph.antt =====
-- The work graph: the data of src/work-graph/types.ts and the key of a context reference.
pub mod Frontier
pub mod Cancellation
pub mod Validation
use metaclaw.Base.{String, List, ◌⧺◌}

pub data ItemType : Type 0 where
  text artifact : ItemType

pub record RequiredItem : Type 0 where
  pub key : String
  pub type : ItemType
  pub description : String

pub record Dependency : Type 0 where
  pub from_subtask_id : String
  pub required_items : List RequiredItem

pub data Side : Type 0 where
  user assistant : Side

pub data ContextRef : Type 0 where
  current_user_input : ContextRef
  interaction : (interaction_id : String) (side : Side) → ContextRef
  task_resource : (locator : String) → ContextRef
  task_evidence : (evidence_id : String) → ContextRef
  preference : (preference_id : String) → ContextRef

pub record AcceptanceCriterion : Type 0 where
  pub key : String
  pub description : String
  pub required_evidence : List String

pub data RiskLevel : Type 0 where
  low medium high : RiskLevel

pub record Subtask : Type 0 where
  pub id : String
  pub title : String
  pub goal : String
  pub dependencies : List Dependency
  pub context_refs : List ContextRef
  pub required_capabilities : List String
  pub preferred_agent_class_list : List String
  pub acceptance : List AcceptanceCriterion
  pub risk_level : RiskLevel

pub record Proposal : Type 0 where
  pub reason : String
  pub subtasks : List Subtask

side_name : Side → String
side_name user = "user"
side_name assistant = "assistant"

-- `contextRefKey` of src/work-graph/validation.ts.
unfoldable pub context_ref_key : ContextRef → String
unfolding side_name
context_ref_key current_user_input = "current_user_input"
context_ref_key (interaction i s) = "interaction:" ⧺ i ⧺ ":" ⧺ side_name s
context_ref_key (task_resource l) = "task_resource:" ⧺ l
context_ref_key (task_evidence e) = "task_evidence:" ⧺ e
context_ref_key (preference p) = "preference:" ⧺ p
