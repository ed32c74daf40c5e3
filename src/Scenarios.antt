-- ===== src/Scenarios.antt =====
-- Concrete inputs, and the runs of the program on them.
pub mod WorkGraphRuns
pub mod ResourceRuns
pub mod LeaseRuns
pub mod PermissionRuns
pub mod TaskRuns
pub mod CompletionRuns
pub mod ExecutorRuns
pub mod KernelRuns
pub mod ControlRuns
use metaclaw.Base.{
  ℕ, Option, none, some, String, List, [], ◌∷◌, text_le, text_length, show_nat, true, false,
}
use metaclaw.Host.{Host}
use metaclaw.WorkGraph.{
  Subtask, Dependency, RequiredItem, text, AcceptanceCriterion, low, current_user_input, Proposal,
}
use metaclaw.Kernel.Model.{Event, Payload}

-- A time is as late as its text is long; texts are ordered by code units.
abbrev pub host : Host
host = record {
  locale_le = text_le;
  parse_date = λ s. some (text_length s);
  iso_date = show_nat;
  nfc = λ s. s;
  lower = λ s. s;
}

abbrev pub needs : String → Dependency
needs id = record {
  from_subtask_id = id;
  required_items = record { key = "report"; type = text; description = "The report" } ∷ [];
}

abbrev pub subtask : String → List Dependency → String → Subtask
subtask id dependencies class = record {
  id = id;
  title = id;
  goal = id;
  dependencies = dependencies;
  context_refs = current_user_input ∷ [];
  required_capabilities = "code" ∷ [];
  preferred_agent_class_list = class ∷ [];
  acceptance = record { key = "done"; description = "It is done"; required_evidence = [] } ∷ [];
  risk_level = low;
}

abbrev pub event_of : Payload → Event
event_of payload = record {
  envelope = record {
    id = "e1";
    correlation_id = "c1";
    causation_id = none;
    occurred_at = "now";
    session_id = "s1";
    task_id = some "t1";
    subtask_id = some "a";
    attempt_id = some "x1";
  };
  payload = payload;
}
