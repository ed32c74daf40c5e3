-- ===== src/WorkGraph/Validation.antt =====
-- `validateWorkGraph` of src/work-graph/validation.ts.
pub mod Report
pub mod Contract
pub mod Cycle
pub mod Topology
pub mod Acyclic
pub mod Ids
pub mod Dependencies
pub mod WellFormed
use metaclaw.Base.{
  ℕ, zero, suc, ◌+◌, Bool, true, false, ◌&&◌, ◌||◌, not, if◌then◌else◌, Option, none, some, get_or,
  is_some, ltb, eqb, leb, ◌==◌, String, ◌⧺◌, List, [], ◌∷◌, ◌++◌, map, filter, all, contains,
  length, head?, trim, is_empty, join, text_length, show_nat, any_char, Dict, get, set, has,
  sort_by, truthy, same,
}
use Prim.Native.Char.{code}
use mathlib.Core.List.{foldl}
use metaclaw.WorkGraph.{
  Subtask, Dependency, RequiredItem, AcceptanceCriterion, ContextRef, context_ref_key,
}
use metaclaw.WorkGraph.Validation.Cycle.{contains_cycle}
use metaclaw.WorkGraph.Validation.Report.{
  ViolationCode, acceptance_count_invalid, dependency_cycle, dependency_items_count_invalid,
  description_invalid, duplicate_acceptance_key, duplicate_context_ref, duplicate_dependency,
  duplicate_dependency_item_key, duplicate_subtask_id, empty_subtask_id, empty_work_graph,
  evidence_requirements_count_invalid, invalid_key, mergeable_same_agent_chain, missing_entry_node,
  self_dependency, too_many_context_refs, unknown_dependency, Violation, violation, at_index,
  code_name,
}
use metaclaw.WorkGraph.Validation.Contract.{subtask_contract_violations}

-- The first loop: the map `subtasksById` of the ids met so far is threaded.
unfoldable pub id_violations : Dict Subtask → ℕ → List Subtask → List Violation × Dict Subtask
unfolding subtask_contract_violations set has
id_violations by_id index [] = ([], by_id)
id_violations by_id index (s ∷ rest) =
    let path = at_index "subtasks" index ⧺ ".id" in
    let bad =
      if is_empty (trim s.id)
      then violation empty_subtask_id [] path "work graph contains an empty subtask id" ∷ []
      else if has s.id by_id
      then violation duplicate_subtask_id (s.id ∷ []) path ("work graph repeats subtask id " ⧺ s.id)
        ∷ []
      else [] in
    let by_id' = if is_empty (trim s.id) || has s.id by_id then by_id else set s.id s by_id in
    let (later, all) = id_violations by_id' (index + 1) rest in
    (bad ++ subtask_contract_violations s index ++ later, all)

-- The inner loop over the dependencies of one subtask, with the known ones that it collects.
unfoldable pub dependency_violations :
    Dict Subtask
    → String
    → String
    → List String
    → ℕ
    → List Dependency
    → List Violation × List String
unfolding has
dependency_violations by_id base id seen index [] = ([], [])
dependency_violations by_id base id seen index (d ∷ rest) =
    let path = at_index (base ⧺ ".dependencies") index ⧺ ".fromSubtaskId" in
    let from = d.from_subtask_id in
    let (later, known) =
      dependency_violations by_id base id (if contains seen from then seen else from ∷ seen)
        (index + 1) rest in
    if contains seen from
    then (
      violation duplicate_dependency (id ∷ from ∷ []) path
            ("subtask " ⧺ id ⧺ " repeats dependency " ⧺ from)
          ∷ later,
      known,
    )
    else if from == id
    then (
      violation self_dependency (id ∷ []) path ("subtask " ⧺ id ⧺ " depends on itself") ∷ later,
      known,
    )
    else if not (has from by_id)
    then (
      violation unknown_dependency (id ∷ from ∷ []) path
            ("subtask " ⧺ id ⧺ " depends on unknown subtask " ⧺ from)
          ∷ later,
      known,
    )
    else (later, from ∷ known)

-- The second loop, with the map `dependencyGraph`.
unfoldable pub graph_violations :
    Dict Subtask → Dict (List String) → ℕ → List Subtask → List Violation × Dict (List String)
unfolding dependency_violations set
graph_violations by_id graph index [] = ([], graph)
graph_violations by_id graph index (s ∷ rest) =
    let (here, known) =
      dependency_violations by_id (at_index "subtasks" index) s.id [] 0 s.dependencies in
    let (later, all) = graph_violations by_id (set s.id known graph) (index + 1) rest in
    (here ++ later, all)

-- The map `children`: every subtask has an entry, and an unknown dependency adds nothing.
abbrev pub is_nil : {A : Type 0} → List A → Bool
is_nil [] = true
is_nil (x ∷ xs) = false

add_child : String → Dict (List String) → Dependency → Dict (List String)
add_child id children d = elim (get d.from_subtask_id children) [
  | none ↦ children
  | some ids ↦ set d.from_subtask_id (ids ++ id ∷ []) children
]

children_of : List Subtask → Dict (List String)
unfolding add_child
children_of subtasks =
    foldl (λ m s. foldl (add_child s.id) m s.dependencies)
      (foldl (λ m s. set s.id [] m) [] subtasks) subtasks

-- The check of one subtask for a chain that could be merged.
unfoldable pub mergeable_at :
    Dict Subtask → Dict (List String) → ℕ → Subtask → List Dependency → List Violation
unfolding get
mergeable_at by_id children index downstream (d ∷ []) =
    let upstream_id = d.from_subtask_id in
    let preferred : Option String = elim (get upstream_id by_id) [
      | none ↦ none
      | some u ↦ head? u.preferred_agent_class_list
    ] in
    if not (eqb (length (get_or (get upstream_id children) [])) 1)
    then []
    else if not (truthy preferred)
        || not (same (head? downstream.preferred_agent_class_list) preferred)
    then []
    else violation mergeable_same_agent_chain (upstream_id ∷ downstream.id ∷ [])
        (at_index "subtasks" index ⧺ ".dependencies.0")
        ("subtasks "
          ⧺ upstream_id
          ⧺ " -> "
          ⧺ downstream.id
          ⧺ " form a mergeable "
          ⧺ get_or preferred ""
          ⧺ " single chain")
      ∷ []
mergeable_at by_id children index downstream _ = []

mergeable_violations : Dict Subtask → Dict (List String) → ℕ → List Subtask → List Violation
unfolding mergeable_at
mergeable_violations by_id children index [] = []
mergeable_violations by_id children index (s ∷ rest) =
    mergeable_at by_id children index s s.dependencies
    ++ mergeable_violations by_id children (index + 1) rest

-- The checks behind the two loops: of the entry, of cycles and of chains that could be merged.
unfoldable pub closing_violations :
    List Subtask → Dict Subtask → Dict (List String) → List Violation
unfolding mergeable_violations children_of
closing_violations subtasks by_id graph =
    (if not (is_nil subtasks) && all (λ s. not (is_nil s.dependencies)) subtasks
      then violation missing_entry_node [] "subtasks"
          "work graph has no dependency-free entry subtask"
        ∷ []
      else [])
    ++ (if contains_cycle graph
        then violation dependency_cycle [] "subtasks" "work graph contains a dependency cycle" ∷ []
        else [])
    ++ mergeable_violations by_id (children_of subtasks) 0 subtasks

-- The violations in the order in which they are pushed.
unfoldable pub found_violations : List Subtask → List Violation
unfolding id_violations graph_violations closing_violations
found_violations subtasks =
    let (of_ids, by_id) = id_violations [] 0 subtasks in
    let (of_dependencies, graph) = graph_violations by_id [] 0 subtasks in
    (if is_nil subtasks
      then violation empty_work_graph [] "subtasks" "work graph has no subtasks" ∷ []
      else [])
    ++ of_ids
    ++ of_dependencies
    ++ closing_violations subtasks by_id graph

-- `localeCompare` on three keys in turn, not positive.
module _ (locale_le : String → String → Bool) where
  unfoldable pub violation_le : Violation → Violation → Bool
  unfolding code_name
  violation_le left right =
      let tie = λ (a b : String). locale_le a b && locale_le b a in
      if not (tie (code_name left.code) (code_name right.code))
      then locale_le (code_name left.code) (code_name right.code)
      else if not (tie left.path right.path)
      then locale_le left.path right.path
      else locale_le (join "\0" left.subtask_ids) (join "\0" right.subtask_ids)

  unfoldable pub validate_work_graph : List Subtask → List Violation
  unfolding found_violations violation_le
  validate_work_graph subtasks = sort_by violation_le (found_violations subtasks)
