-- ===== src/WorkGraph/Cancellation.antt =====
-- `deriveCancellationClosure` of src/work-graph/cancellation.ts.
pub mod Visit
pub mod Dependents
pub mod Closure
pub mod Guarantees
pub mod Accepted
use metaclaw.Base.{
  ℕ, zero, suc, Bool, true, false, ◌&&◌, ◌||◌, not, if◌then◌else◌, Option, none, some, get_or,
  is_some, ltb, eqb, leb, ◌==◌, String, List, [], ◌∷◌, ◌++◌, map, filter, contains, length, unique,
  text_le, sort_by, Dict, get, set, has, index_by,
}
use metaclaw.WorkGraph.Cancellation.Visit.{visit, visit_all}

pub data CancellationStatus : Type 0 where
  ready running awaiting_integration awaiting_decision blocked done cancelled : CancellationStatus

pub record CancellationFact : Type 0 where
  pub subtask_id : String
  pub status : CancellationStatus

-- A subtask of the graph, with the ids that its dependencies name.
pub record Node : Type 0 where
  pub id : String
  pub dependencies : List String

pub data RejectionReason : Type 0 where
  empty_targets unknown_subtask already_done already_cancelled : RejectionReason

pub data ClosureResult : Type 0 where
  ok : (subtask_ids : List String) → ClosureResult
  rejected : (reason : RejectionReason) (subtask_ids : List String) → ClosureResult

-- `downstream.push(id)` under a key of `dependents`.
push : String → String → Dict (List String) → Dict (List String)
push key id dependents = set key (get_or (get key dependents) [] ++ (id ∷ [])) dependents

push_all : List String → String → Dict (List String) → Dict (List String)
unfolding push
push_all [] id dependents = dependents
push_all (key ∷ keys) id dependents = push_all keys id (push key id dependents)

collect : List Node → Dict (List String) → Dict (List String)
unfolding push_all
collect [] dependents = dependents
collect (s ∷ rest) dependents = collect rest (push_all s.dependencies s.id dependents)

-- The map `dependents`, its lists sorted.
unfoldable pub dependents_of : List Node → Dict (List String)
unfolding collect
dependents_of subtasks = map (λ e. (e.0, sort_by text_le e.1)) (collect subtasks [])

-- `dependents.get(id) ?? []`
unfoldable pub next_of : List Node → String → List String
next_of subtasks id = get_or (get id (dependents_of subtasks)) []

-- The depths after a visit of each target. `none`: the calls nest deeper than there are
-- subtasks, so some subtask is met below itself and the recursion does not end.
unfoldable pub depths_of : List Node → List String → Option (Dict ℕ)
depths_of subtasks targets =
    visit_all (λ id depths. visit (next_of subtasks) (suc (suc (length subtasks))) id 0 depths)
      targets []

-- `rightDepth - leftDepth || leftId.localeCompare(rightId)`, not positive.
unfoldable pub deeper_first : (String → String → Bool) → String × ℕ → String × ℕ → Bool
deeper_first locale_le (left_id, left_depth) (right_id, right_depth) =
    if eqb left_depth right_depth then locale_le left_id right_id else ltb right_depth left_depth

abbrev pub is_done : CancellationStatus → Bool
is_done done = true
is_done _ = false

abbrev pub is_cancelled : CancellationStatus → Bool
is_cancelled cancelled = true
is_cancelled _ = false

-- `factsById.get(id)?.status` passes the test.
unfoldable pub fact_is : (CancellationStatus → Bool) → List CancellationFact → String → Bool
fact_is test facts id = elim (get id (index_by (λ f. f.subtask_id) facts)) [
  | none ↦ false
  | some f ↦ test f.status
]

-- What follows the visits.
unfoldable pub judge : List CancellationFact → List String → ClosureResult
judge facts closure = elim (filter (fact_is is_done facts) closure) [
  | d ∷ ds ↦ rejected already_done (d ∷ ds)
  | [] ↦ elim (filter (fact_is is_cancelled facts) closure) [
    | c ∷ cs ↦ rejected already_cancelled (c ∷ cs)
    | [] ↦ ok closure
  ]
]

unfoldable pub known_subtask : List Node → List CancellationFact → String → Bool
known_subtask graph facts id =
    contains (map (λ s. s.id) graph) id && contains (map (λ f. f.subtask_id) facts) id

module _ (locale_le : String → String → Bool) where
  -- The ids of the visited subtasks, the deepest first.
  unfoldable pub order_closure : Dict ℕ → List String
  order_closure depths = map (λ e. e.0) (sort_by (deeper_first locale_le) depths)

  -- What follows once the targets are unique and sorted.
  unfoldable pub close_targets :
      List Node → List CancellationFact → List String → Option ClosureResult
  close_targets graph facts [] = some (rejected empty_targets [])
  close_targets graph facts (first ∷ others) =
      elim (filter (λ id. not (known_subtask graph facts id)) (first ∷ others)) [
        | u ∷ us ↦ some (rejected unknown_subtask (u ∷ us))
        | [] ↦ elim (depths_of graph (first ∷ others)) [
          | none ↦ none
          | some depths ↦ some (judge facts (order_closure depths))
        ]
      ]

  unfoldable pub derive_cancellation_closure :
      List Node → List CancellationFact → List String → Option ClosureResult
  unfolding close_targets
  derive_cancellation_closure graph facts target_subtask_ids =
      close_targets graph facts (sort_by text_le (unique target_subtask_ids))
