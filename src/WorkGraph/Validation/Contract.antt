-- ===== src/WorkGraph/Validation/Contract.antt =====
-- `validateSubtaskContract` and `validateKeyedDescriptions` of src/work-graph/validation.ts.
use metaclaw.Base.{
  ℕ, ◌+◌, Bool, false, ◌&&◌, ◌||◌, not, if◌then◌else◌, ltb, eqb, leb, String, ◌⧺◌, List, [], ◌∷◌,
  ◌++◌, map, contains, length, trim, is_empty, text_length, any_char,
}
use Prim.Native.Char.{code}
use metaclaw.WorkGraph.{Subtask, Dependency, AcceptanceCriterion, ContextRef, context_ref_key}
use metaclaw.WorkGraph.Validation.Report.{
  ViolationCode, acceptance_count_invalid, dependency_items_count_invalid, description_invalid,
  duplicate_acceptance_key, duplicate_context_ref, duplicate_dependency_item_key,
  evidence_requirements_count_invalid, invalid_key, too_many_context_refs, Violation, violation,
  at_index,
}

is_key_unit : ℕ → Bool
is_key_unit c = (leb b'a' c && leb c b'z') || (leb b'0' c && leb c b'9') || eqb c b'_' || eqb c b'-'

-- `WORK_GRAPH_KEY_PATTERN.test(key)`: `/^[a-z][a-z0-9_-]{0,63}$/`.
unfoldable pub is_key : String → Bool
unfolding is_key_unit
is_key String.[] = false
is_key (String.◌∷◌ c s) =
    leb b'a' (code c)
    && leb (code c) b'z'
    && not (any_char (λ d. not (is_key_unit d)) s)
    && leb (text_length s) 63

-- The scope of `validateKeyedDescriptions`.
pub data Scope : Type 0 where
  dependency acceptance : Scope

scope_name : Scope → String
scope_name dependency = "dependency"
scope_name acceptance = "acceptance"

duplicate_key_code : Scope → ViolationCode
duplicate_key_code dependency = duplicate_dependency_item_key
duplicate_key_code acceptance = duplicate_acceptance_key

-- The parts of `requiredItems` and `acceptance` that are read: a key and a description.
keyed_descriptions :
    String → String → Scope → List String → ℕ → List (String × String) → List Violation
unfolding scope_name duplicate_key_code
keyed_descriptions path id scope seen index [] = []
keyed_descriptions path id scope seen index ((key, description) ∷ rest) =
    let here = at_index path index in
    (if is_key key
      then []
      else violation invalid_key (id ∷ []) (here ⧺ ".key")
          (scope_name scope ⧺ " key " ⧺ (if is_empty key then "(empty)" else key) ⧺ " is invalid")
        ∷ [])
    ++ (if contains seen key
        then violation (duplicate_key_code scope) (id ∷ []) (here ⧺ ".key")
            (scope_name scope ⧺ " key " ⧺ key ⧺ " is duplicated")
          ∷ []
        else [])
    ++ (if is_empty (trim description) || ltb 500 (text_length description)
        then violation description_invalid (id ∷ []) (here ⧺ ".description")
            (scope_name scope ⧺ " description must contain 1 to 500 characters")
          ∷ []
        else [])
    ++ keyed_descriptions path id scope (key ∷ seen) (index + 1) rest

context_ref_violations : String → String → List String → ℕ → List ContextRef → List Violation
context_ref_violations base id seen index [] = []
context_ref_violations base id seen index (ref ∷ rest) =
    let key = context_ref_key ref in
    (if contains seen key
      then violation duplicate_context_ref (id ∷ []) (at_index (base ⧺ ".contextRefs") index)
          ("subtask " ⧺ id ⧺ " repeats context ref " ⧺ key)
        ∷ []
      else [])
    ++ context_ref_violations base id (key ∷ seen) (index + 1) rest

dependency_item_violations : String → String → ℕ → List Dependency → List Violation
unfolding keyed_descriptions
dependency_item_violations base id index [] = []
dependency_item_violations base id index (d ∷ rest) =
    let path = at_index (base ⧺ ".dependencies") index ⧺ ".requiredItems" in
    (if ltb (length d.required_items) 1 || ltb 12 (length d.required_items)
      then violation dependency_items_count_invalid (id ∷ d.from_subtask_id ∷ []) path
          ("dependency " ⧺ d.from_subtask_id ⧺ " -> " ⧺ id ⧺ " must require 1 to 12 items")
        ∷ []
      else [])
    ++ keyed_descriptions path id dependency [] 0
        (map (λ i. (i.key, i.description)) d.required_items)
    ++ dependency_item_violations base id (index + 1) rest

evidence_violations : String → String → ℕ → List AcceptanceCriterion → List Violation
evidence_violations base id index [] = []
evidence_violations base id index (a ∷ rest) =
    (if ltb 4 (length a.required_evidence)
      then violation evidence_requirements_count_invalid (id ∷ [])
          (at_index (base ⧺ ".acceptance") index ⧺ ".requiredEvidence")
          ("acceptance " ⧺ a.key ⧺ " may require at most 4 evidence kinds")
        ∷ []
      else [])
    ++ evidence_violations base id (index + 1) rest

-- `validateSubtaskContract`
unfoldable pub subtask_contract_violations : Subtask → ℕ → List Violation
unfolding context_ref_violations dependency_item_violations evidence_violations keyed_descriptions
subtask_contract_violations subtask index =
    let base = at_index "subtasks" index in
    let id = subtask.id in
    (if ltb 12 (length subtask.context_refs)
      then violation too_many_context_refs (id ∷ []) (base ⧺ ".contextRefs")
          ("subtask " ⧺ id ⧺ " has more than 12 context refs")
        ∷ []
      else [])
    ++ context_ref_violations base id [] 0 subtask.context_refs
    ++ dependency_item_violations base id 0 subtask.dependencies
    ++ (if ltb (length subtask.acceptance) 1 || ltb 12 (length subtask.acceptance)
        then violation acceptance_count_invalid (id ∷ []) (base ⧺ ".acceptance")
            ("subtask " ⧺ id ⧺ " must declare 1 to 12 acceptance criteria")
          ∷ []
        else [])
    ++ keyed_descriptions (base ⧺ ".acceptance") id acceptance [] 0
        (map (λ a. (a.key, a.description)) subtask.acceptance)
    ++ evidence_violations base id 0 subtask.acceptance
