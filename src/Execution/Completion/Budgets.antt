-- ===== src/Execution/Completion/Budgets.antt =====
-- `validateBudgets`. The sums that the loops build up are functions of what they run over.
use metaclaw.Base.{
  ℕ, ◌+◌, Bool, ◌||◌, if◌then◌else◌, get_or, ltb, String, ◌⧺◌, List, [], ◌∷◌, ◌++◌, length, trim,
  is_empty, text_length, Dict, get,
}
use metaclaw.WorkGraph.Validation.Report.{at_index}
use metaclaw.Execution.Completion.Model.{
  ContractViolation, contract_violation, completion_budget_exceeded, HandoffItem, text_item,
  artifact_item, Handoff, CompletedEnvelope, IncomingUsage,
}

abbrev pub item_text : HandoffItem → ℕ
item_text (text_item key value) = text_length value
item_text (artifact_item key paths) = 0

abbrev pub item_paths : HandoffItem → ℕ
item_paths (text_item key value) = 0
item_paths (artifact_item key paths) = length paths

unfoldable pub edge_text : List HandoffItem → ℕ
edge_text [] = 0
edge_text (i ∷ rest) = item_text i + edge_text rest

unfoldable pub edge_artifacts : List HandoffItem → ℕ
edge_artifacts [] = 0
edge_artifacts (i ∷ rest) = item_paths i + edge_artifacts rest

unfoldable pub total_text : List Handoff → ℕ
unfolding edge_text
total_text [] = 0
total_text (h ∷ rest) = edge_text h.items + total_text rest

unfoldable pub total_artifacts : List Handoff → ℕ
unfolding edge_artifacts
total_artifacts [] = 0
total_artifacts (h ∷ rest) = edge_artifacts h.items + total_artifacts rest

-- A violation of the budget, if the test says so.
abbrev pub over : Bool → String → String → List ContractViolation
over test path message =
    if test then contract_violation completion_budget_exceeded path message ∷ [] else []

abbrev pub item_budget : String → HandoffItem → List ContractViolation
item_budget path (text_item key value) =
    over (is_empty (trim value) || ltb 4000 (text_length value)) (path ⧺ ".value")
      "text handoff item must contain 1 to 4000 characters"
item_budget path (artifact_item key paths) =
    over (ltb (length paths) 1 || ltb 20 (length paths)) (path ⧺ ".paths")
      "artifact handoff item must contain 1 to 20 paths"

unfoldable pub item_budgets : String → ℕ → List HandoffItem → List ContractViolation
unfolding trim text_length
item_budgets base index [] = []
item_budgets base index (i ∷ rest) =
    item_budget (at_index base index) i ++ item_budgets base (index + 1) rest

unfoldable pub edge_budget : Dict IncomingUsage → ℕ → Handoff → List ContractViolation
unfolding item_budgets edge_text edge_artifacts get
edge_budget incoming index h =
    let base = at_index "handoffs" index in
    let used =
      get_or (get h.to_subtask_id incoming) (record { text_characters = 0; artifact_paths = 0 }) in
    item_budgets (base ⧺ ".items") 0 h.items
    ++ (over (ltb 12000 (edge_text h.items)) base "edge text exceeds 12000 characters"
        ++ (over (ltb 20 (edge_artifacts h.items)) base "edge artifact paths exceed 20"
            ++ (over (ltb 24000 (used.text_characters + edge_text h.items)) (base ⧺ ".toSubtaskId")
                  ("all incoming handoff text for " ⧺ h.to_subtask_id ⧺ " exceeds 24000 characters")
                ++ over (ltb 40 (used.artifact_paths + edge_artifacts h.items))
                    (base ⧺ ".toSubtaskId")
                    ("all incoming handoff artifact paths for " ⧺ h.to_subtask_id ⧺ " exceed 40"))))

unfoldable pub edge_budgets : Dict IncomingUsage → ℕ → List Handoff → List ContractViolation
unfolding edge_budget
edge_budgets incoming index [] = []
edge_budgets incoming index (h ∷ rest) =
    edge_budget incoming index h ++ edge_budgets incoming (index + 1) rest

unfoldable pub validate_budgets : Dict IncomingUsage → CompletedEnvelope → List ContractViolation
unfolding edge_budgets total_text total_artifacts
validate_budgets incoming envelope =
    edge_budgets incoming 0 envelope.handoffs
    ++ (over (ltb 24000 (total_text envelope.handoffs)) "handoffs"
          "all outgoing handoff text exceeds 24000 characters"
        ++ (over (ltb 40 (total_artifacts envelope.handoffs)) "handoffs"
              "all outgoing handoff artifact paths exceed 40"
            ++ over (ltb 40 (length envelope.artifacts)) "artifacts"
                "node artifacts exceed 40 paths"))
