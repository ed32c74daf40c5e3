-- ===== src/WorkGraph/Validation/Cycle.antt =====
-- `containsCycle` of src/work-graph/validation.ts. Fuel bounds how deep the calls of `visit` nest.
use metaclaw.Base.{
  ℕ, zero, suc, Bool, true, false, get_or, String, List, [], ◌∷◌, map, contains, length, Dict, get,
}

-- What a call of `visit` comes to: no fuel left, `true`, or `false` with the set `visited`.
pub data Walk : Type 0 where
  unfinished : Walk
  cycle : Walk
  clear : (visited : List String) → Walk

-- `ids.some(visit)`
unfoldable pub visit_some : (String → List String → Walk) → List String → List String → Walk
visit_some visit [] visited = clear visited
visit_some visit (id ∷ ids) visited = elim (visit id visited) [
  | unfinished ↦ unfinished
  | cycle ↦ cycle
  | clear visited' ↦ visit_some visit ids visited'
]

module _ (graph : Dict (List String)) where
  -- `graph.get(id) ?? []`
  abbrev pub edges : String → List String
  edges id = get_or (get id graph) []

  -- `visiting` holds the open calls: an id is added before the calls for its dependencies and
  -- deleted behind them.
  unfoldable pub visit : ℕ → List String → String → List String → Walk
  unfolding visit_some
  visit zero visiting id visited = unfinished
  visit (suc fuel) visiting id visited = elim (contains visiting id) [
    | true ↦ cycle
    | false ↦ elim (contains visited id) [
      | true ↦ clear visited
      | false ↦ elim (visit_some (visit fuel (id ∷ visiting)) (edges id) visited) [
        | unfinished ↦ unfinished
        | cycle ↦ cycle
        | clear visited' ↦ clear (id ∷ visited')
      ]
    ]
  ]

  unfoldable pub walk_all : Walk
  unfolding visit
  walk_all = visit_some (visit (suc (suc (length graph))) []) (map (λ e. e.0) graph) []

  -- Whether the walk meets a cycle.
  unfoldable pub contains_cycle : Bool
  unfolding walk_all
  contains_cycle = elim walk_all [ unfinished ↦ true | cycle ↦ true | clear visited ↦ false ]
