-- ===== src/Execution/Completion/Checks.antt =====
-- `validateAcceptance` and `validateHandoffs`.
use metaclaw.Base.{
  ℕ, ◌+◌, Bool, true, false, ◌&&◌, ◌||◌, if◌then◌else◌, none, some, eqb, ltb, String, ◌⧺◌, List, [],
  ◌∷◌, ◌++◌, map, all, length, contains, unique, join, sort_by, text_le, trim, is_empty,
  text_length, Dict, get, set, has, keys, index_by,
}
use metaclaw.WorkGraph.{RequiredItem, ItemType, text, artifact}
use metaclaw.WorkGraph.Validation.Report.{at_index}
use metaclaw.Execution.Completion.Model.{
  ContractViolation, contract_violation, completion_acceptance_mismatch,
  completion_handoff_mismatch, completion_budget_exceeded, AcceptanceEvidence, HandoffItem,
  text_item, artifact_item, Handoff, CompletedEnvelope, OutgoingHandoff, AttemptSubtask,
}

-- `set.add`
abbrev pub add : String → List String → List String
add a xs = if contains xs a then xs else xs ++ a ∷ []

-- Sets are lists without repetition.
abbrev pub same_set : List String → List String → Bool
same_set left right = eqb (length left) (length right) && all (contains right) left

evidence_violations : String → ℕ → List String → List ContractViolation
unfolding trim text_length
evidence_violations base index [] = []
evidence_violations base index (e ∷ rest) =
    (if is_empty (trim e) || ltb 4000 (text_length e)
      then contract_violation completion_budget_exceeded (at_index base index)
          "result description must contain 1 to 4000 characters"
        ∷ []
      else [])
    ++ evidence_violations base (index + 1) rest

-- The checks of one item.
unfoldable pub item_violations : ℕ → List String → AcceptanceEvidence → List ContractViolation
unfolding evidence_violations
item_violations index actual item =
    let base = at_index "acceptanceEvidence" index in
    (if contains actual item.key
      then contract_violation completion_acceptance_mismatch (base ⧺ ".key")
          ("duplicate acceptance key " ⧺ item.key)
        ∷ []
      else [])
    ++ ((if ltb (length item.evidence) 1 || ltb 4 (length item.evidence)
          then contract_violation completion_acceptance_mismatch (base ⧺ ".evidence")
              "acceptance evidence must contain 1 to 4 entries"
            ∷ []
          else [])
        ++ evidence_violations (base ⧺ ".evidence") 0 item.evidence)

-- The loop over the items, with the keys met so far.
unfoldable pub acceptance_items :
    ℕ → List String → List AcceptanceEvidence → List ContractViolation × List String
unfolding item_violations
acceptance_items index actual [] = ([], actual)
acceptance_items index actual (item ∷ rest) =
    let (later, keys) = acceptance_items (index + 1) (add item.key actual) rest in
    (item_violations index actual item ++ later, keys)

unfoldable pub validate_acceptance : AttemptSubtask → CompletedEnvelope → List ContractViolation
unfolding acceptance_items unique join
validate_acceptance subtask envelope =
    let expected = unique (map (λ a. a.key) subtask.acceptance) in
    let (found, actual) = acceptance_items 0 [] envelope.acceptance_evidence in
    found
    ++ (if same_set expected actual
        then []
        else contract_violation completion_acceptance_mismatch "acceptanceEvidence"
            ("acceptance keys must equal authorized keys: " ⧺ join ", " (sort_by text_le expected))
          ∷ [])

abbrev pub item_key : HandoffItem → String
item_key (text_item key value) = key
item_key (artifact_item key paths) = key

abbrev pub item_type : HandoffItem → ItemType
item_type (text_item key value) = text
item_type (artifact_item key paths) = artifact

abbrev same_type : ItemType → ItemType → Bool
same_type text text = true
same_type artifact artifact = true
same_type _ _ = false

-- `map.size` and the comparison of every entry.
abbrev pub same_map : Dict ItemType → Dict ItemType → Bool
same_map left right =
    eqb (length left) (length right)
    && all (λ e. elim (get e.0 right) [ none ↦ false | some t ↦ same_type t e.1 ]) left

-- The loop over the items of one handoff, with the map of their types so far.
unfoldable pub handoff_items :
    String → ℕ → Dict ItemType → List HandoffItem → List ContractViolation × Dict ItemType
unfolding has set
handoff_items base index actual [] = ([], actual)
handoff_items base index actual (item ∷ rest) =
    let (later, types) =
      handoff_items base (index + 1) (set (item_key item) (item_type item) actual) rest in
    (
      (if has (item_key item) actual
            then contract_violation completion_handoff_mismatch
                (at_index (base ⧺ ".items") index ⧺ ".key")
                ("duplicate handoff item " ⧺ item_key item)
              ∷ []
            else [])
          ++ later,
      types,
    )

-- The map of the required types.
abbrev pub expected_items : List RequiredItem → Dict ItemType
expected_items required = map (λ e. (e.0, e.1.type)) (index_by (λ i. i.key) required)

-- The check of one handoff behind that of its target.
abbrev pub handoff_violations : Dict OutgoingHandoff → ℕ → Handoff → List ContractViolation
handoff_violations expected index handoff =
    let base = at_index "handoffs" index in
    elim (get handoff.to_subtask_id expected) [
      | none ↦
          contract_violation completion_handoff_mismatch base
            ("unauthorized handoff target " ⧺ handoff.to_subtask_id)
          ∷ []
      | some contract ↦
          let (found, types) = handoff_items base 0 [] handoff.items in
          found
          ++ (if same_map (expected_items contract.required_items) types
              then []
              else contract_violation completion_handoff_mismatch (base ⧺ ".items")
                  ("handoff items must exactly match contract for " ⧺ handoff.to_subtask_id)
                ∷ [])
    ]

-- The checks of one handoff, that of its target first.
unfoldable pub target_violations :
    Dict OutgoingHandoff → ℕ → List String → Handoff → List ContractViolation
unfolding handoff_items get index_by
target_violations expected index seen handoff =
    (if contains seen handoff.to_subtask_id
      then contract_violation completion_handoff_mismatch
          (at_index "handoffs" index ⧺ ".toSubtaskId")
          ("duplicate handoff target " ⧺ handoff.to_subtask_id)
        ∷ []
      else [])
    ++ handoff_violations expected index handoff

-- The loop over the handoffs, with the targets met so far.
unfoldable pub handoff_targets :
    Dict OutgoingHandoff → ℕ → List String → List Handoff → List ContractViolation × List String
unfolding target_violations
handoff_targets expected index seen [] = ([], seen)
handoff_targets expected index seen (handoff ∷ rest) =
    let (later, targets) =
      handoff_targets expected (index + 1) (add handoff.to_subtask_id seen) rest in
    (target_violations expected index seen handoff ++ later, targets)

unfoldable pub validate_handoffs : List OutgoingHandoff → CompletedEnvelope → List ContractViolation
unfolding handoff_targets index_by keys
validate_handoffs contracts envelope =
    let expected = index_by (λ c. c.to_subtask_id) contracts in
    let (found, seen) = handoff_targets expected 0 [] envelope.handoffs in
    found
    ++ (if same_set (keys expected) seen
        then []
        else contract_violation completion_handoff_mismatch "handoffs"
            "handoff targets must exactly match authorized outgoing edges"
          ∷ [])
