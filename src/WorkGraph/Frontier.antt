-- ===== src/WorkGraph/Frontier.antt =====
-- `deriveRunnableFrontier` of src/work-graph/frontier.ts.
pub mod Members
pub mod Layers
use metaclaw.Base.{
  ℕ, zero, suc, ◌+◌, max, Bool, true, false, ◌&&◌, not, if◌then◌else◌, Option, none, some, get_or,
  ltb, eqb, ◌==◌, String, List, [], ◌∷◌, map, all, filter, contains, length, Dict, get, set,
  index_by, sort_by,
}
use metaclaw.WorkGraph.{Subtask, Dependency}

pub data RuntimeStatus : Type 0 where
  ready running awaiting_integration awaiting_decision blocked done cancelled : RuntimeStatus

pub record RuntimeFact : Type 0 where
  pub subtask_id : String
  pub status : RuntimeStatus
  pub first_dispatch_order : Option ℕ
  pub has_pending_or_active_attempt : Bool

abbrev pub is_ready : RuntimeStatus → Bool
is_ready ready = true
is_ready _ = false

abbrev pub is_done : RuntimeStatus → Bool
is_done done = true
is_done _ = false

-- `factsById.get(id)?.status === 'done'`
unfoldable pub fact_done : Dict RuntimeFact → String → Bool
fact_done facts_by_id id = elim (get id facts_by_id) [ none ↦ false | some f ↦ is_done f.status ]

unfoldable pub is_runnable : Dict RuntimeFact → Subtask → Bool
unfolding fact_done
is_runnable facts_by_id subtask = elim (get subtask.id facts_by_id) [
  | none ↦ false
  | some fact ↦
      is_ready fact.status
      && not fact.has_pending_or_active_attempt
      && all (λ d. fact_done facts_by_id d.from_subtask_id) subtask.dependencies
]

-- `Number.MAX_SAFE_INTEGER`
abbrev pub max_safe : ℕ
max_safe = 9007199254740991

-- `n + 1` as a double, for the numbers that occur: 2 ^ 53 + 1 rounds to 2 ^ 53.
abbrev pub double_suc : ℕ → ℕ
double_suc n = if ltb n 9007199254740992 then n + 1 else n

-- `Math.max(...xs)` of a list that is not empty.
abbrev pub maximum : List ℕ → ℕ
maximum [] = 0
maximum (x ∷ xs) = max x (maximum xs)

abbrev pub layer_of : List ℕ → ℕ
layer_of [] = 0
layer_of (x ∷ xs) = double_suc (maximum (x ∷ xs))

-- `dependencies.map(dependency => derive(dependency.fromSubtaskId))`, with the layers threaded.
unfoldable pub derive_all :
    (String → Dict ℕ → Option (ℕ × Dict ℕ)) → List Dependency → Dict ℕ → Option (List ℕ × Dict ℕ)
derive_all derive [] layers = some ([], layers)
derive_all derive (d ∷ ds) layers = elim (derive d.from_subtask_id layers) [
  | none ↦ none
  | some (layer, layers') ↦ elim (derive_all derive ds layers') [
    | none ↦ none
    | some (rest, layers'') ↦ some (layer ∷ rest, layers'')
  ]
]

module _ (subtasks_by_id : Dict Subtask) where
  -- The inner `derive`. `visiting` holds the calls that are open: an id is added before the calls
  -- for the dependencies and deleted behind them. Fuel bounds how deep the calls nest.
  unfoldable pub derive : ℕ → List String → String → Dict ℕ → Option (ℕ × Dict ℕ)
  unfolding derive_all
  derive zero visiting id layers = none
  derive (suc fuel) visiting id layers = elim (get id layers) [
    | some cached ↦ some (cached, layers)
    | none ↦ elim (contains visiting id) [
      | true ↦ some (max_safe, layers)
      | false ↦ elim (get id subtasks_by_id) [
        | none ↦ some (max_safe, layers)
        | some subtask ↦
            elim (derive_all (derive fuel (id ∷ visiting)) subtask.dependencies layers) [
              | none ↦ none
              | some (dependency_layers, layers') ↦
                  let layer = layer_of dependency_layers in some (layer, set id layer layers')
            ]
      ]
    ]
  ]

  -- The loop over the keys.
  unfoldable pub derive_keys : ℕ → List (String × Subtask) → Dict ℕ → Option (Dict ℕ)
  unfolding derive
  derive_keys fuel [] layers = some layers
  derive_keys fuel ((id, s) ∷ rest) layers = elim (derive fuel [] id layers) [
    | none ↦ none
    | some (layer, layers') ↦ derive_keys fuel rest layers'
  ]

  -- One call more than there are subtasks.
  unfoldable pub derive_topology_layers : Option (Dict ℕ)
  unfolding derive_keys
  derive_topology_layers = derive_keys (suc (length subtasks_by_id)) subtasks_by_id []

-- The comparator, with `localeCompare` left to the host: `left` does not stand behind `right`.
module _ (locale_le : String → String → Bool) (layers : Dict ℕ)
    (facts_by_id : Dict RuntimeFact) where
  abbrev pub layer_at : String → ℕ
  layer_at id = get_or (get id layers) max_safe

  abbrev pub order_at : String → ℕ
  order_at id = elim (get id facts_by_id) [
    | none ↦ max_safe
    | some f ↦ get_or f.first_dispatch_order max_safe
  ]

  unfoldable pub frontier_le : Subtask → Subtask → Bool
  frontier_le left right =
      if not (eqb (layer_at left.id) (layer_at right.id))
      then ltb (layer_at left.id) (layer_at right.id)
      else if not (eqb (order_at left.id) (order_at right.id))
      then ltb (order_at left.id) (order_at right.id)
      else locale_le left.id right.id

-- `filter(...).sort(...).map(...)` with the layers at hand.
unfoldable pub ordered :
    (locale_le : String → String → Bool) (layers : Dict ℕ) (subtasks : List Subtask)
    (facts : List RuntimeFact)
    → List String
unfolding is_runnable frontier_le sort_by index_by
ordered locale_le layers subtasks facts =
    let facts_by_id = index_by (λ f. f.subtask_id) facts in
    map (λ s. s.id)
      (sort_by (frontier_le locale_le layers facts_by_id)
        (filter (is_runnable facts_by_id) subtasks))

unfoldable pub derive_runnable_frontier :
    (locale_le : String → String → Bool) (subtasks : List Subtask) (facts : List RuntimeFact)
    → Option (List String)
unfolding derive_topology_layers ordered index_by
derive_runnable_frontier locale_le subtasks facts =
    elim (derive_topology_layers (index_by (λ s. s.id) subtasks)) [
      | none ↦ none
      | some layers ↦ some (ordered locale_le layers subtasks facts)
    ]
