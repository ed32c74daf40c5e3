-- ===== src/Scenarios/CompletionRuns.antt =====
-- A completion that names one file of the workspace, for one acceptance criterion and one handoff.
use metaclaw.Base.{
  some, String, ◌⧺◌, List, [], ◌∷◌, true, ◌==◌, not, refl, trim, trim_start, text_length, text_le,
  ◌≡◌, Dict, join, unique, has, set, get, index_by, keys,
}
use metaclaw.WorkGraph.{text, artifact}
use metaclaw.Execution.Completion.Model.{
  completed_report, ReportParse, valid, completed, CompletedEnvelope, text_item, artifact_item,
  accepted, OutgoingHandoff, IncomingUsage, AttemptSubtask, FileSystem,
}
use metaclaw.Execution.Completion.{validate_completion_protocol}
use metaclaw.Execution.Completion.Accepted.{AcceptedCompletion, validate-Accepted}

abbrev files : FileSystem
files = record {
  exists = λ p. true;
  realpath = λ p. p;
  is_file = λ p. not (p == "/w");
  is_absolute = λ p. p == "/w";
  resolve = λ root p. root ⧺ "/" ⧺ p;
}

abbrev attempted : AttemptSubtask
attempted = record {
  id = "a";
  acceptance = record { key = "done"; description = "It is done"; required_evidence = [] } ∷ [];
}

abbrev handoffs : List OutgoingHandoff
handoffs =
    record {
      to_subtask_id = "b";
      required_items =
          record { key = "report"; type = text; description = "The report" }
          ∷ record { key = "files"; type = artifact; description = "The files" }
          ∷ [];
    }
    ∷ []

abbrev usage : Dict IncomingUsage
usage = ("b", record { text_characters = 100; artifact_paths = 2 }) ∷ []

-- The report that the text behind the marker stands for.
abbrev read_paths : String → ReportParse
read_paths s = valid (completed_report (some ("out.md" ∷ "out.md" ∷ [])))

abbrev response : String
response = "Done. <!-- metaclaw:completion:v4 --> {}"

abbrev envelope : CompletedEnvelope
envelope = record {
  subtask_id = "a";
  acceptance_evidence = record { key = "done"; evidence = "Done." ∷ [] } ∷ [];
  artifacts = "/w/out.md" ∷ [];
  handoffs =
      record {
        to_subtask_id = "b";
        items = text_item "report" "Done." ∷ artifact_item "files" ("/w/out.md" ∷ []) ∷ [];
      }
      ∷ [];
}

response_run :
    validate_completion_protocol text_le read_paths files attempted handoffs "/w" usage response
    ≡ accepted "Done." (completed envelope) ("/w/out.md" ∷ []) []
unfolding validate_completion_protocol trim trim_start text_length join unique has set get index_by
    keys
response_run = refl

validate-Accepted_example :
    AcceptedCompletion text_le read_paths files attempted handoffs "/w" usage response "Done."
      envelope
      ("/w/out.md" ∷ [])
validate-Accepted_example =
    validate-Accepted text_le read_paths files attempted handoffs "/w" usage response "Done."
      envelope ("/w/out.md" ∷ []) [] response_run
