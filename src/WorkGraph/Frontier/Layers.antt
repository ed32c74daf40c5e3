-- ===== src/WorkGraph/Frontier/Layers.antt =====
-- The recursion of `deriveTopologyLayers`, on every graph, also one with a cycle.
use metaclaw.Base.{
  unvisited, unvisited-lt, unvisited-nil, mem_of_get, mem-map_of_mem, map, length-map, ℕ, zero, suc,
  ◌<◌, ◌≡◌, refl, Bool, Bool-cases, Option, some, Option-cases, inl, inr, set, String, List, [],
  ◌∷◌, contains, length, Dict, get, index_by, arith,
}
use metaclaw.WorkGraph.{Subtask, Dependency}
use metaclaw.WorkGraph.Frontier.{
  RuntimeFact, ordered, max_safe, layer_of, derive_all, derive, derive_keys, derive_topology_layers,
  derive_runnable_frontier,
}

abbrev Returns : {A : Type 0} → Option A → Type 0
Returns {A} o = (a : A) × (o ≡ some a)

derive_all-Returns :
    (f : String → Dict ℕ → Option (ℕ × Dict ℕ)) (ds : List Dependency) (layers : Dict ℕ)
    → ((id : String) (l : Dict ℕ) → Returns (f id l))
    → Returns (derive_all f ds layers)
unfolding derive_all
derive_all-Returns f [] layers h = (([], layers), refl)
derive_all-Returns f (d ∷ ds) layers h =
    let ((layer, layers'), e) = h d.from_subtask_id layers in
    let ((rest, layers''), e') = derive_all-Returns f ds layers' h in
    ((layer ∷ rest, layers''), ground arith)

module _ (m : Dict Subtask) where
  derive-Returns :
      (fuel : ℕ) (visiting : List String) (id : String) (layers : Dict ℕ)
      → unvisited (map (λ e. e.0) m) visiting < fuel
      → Returns (derive m fuel visiting id layers)
  unfolding derive
  derive-Returns zero visiting id layers h = elim h [ ]
  derive-Returns (suc fuel) visiting id layers h = elim (Option-cases (get id layers)) [
    | inr (cached, e) ↦ ((cached, layers), ground arith)
    | inl e ↦ elim (Bool-cases (contains visiting id)) [
      | inl opened ↦ ((max_safe, layers), ground arith)
      | inr closed ↦ elim (Option-cases (get id m)) [
        | inl unknown ↦ ((max_safe, layers), ground arith)
        | inr (subtask, known) ↦
            let deeper : (k : String) (l : Dict ℕ) → Returns (derive m fuel (id ∷ visiting) k l) =
              λ k l. derive-Returns fuel (id ∷ visiting) k l (
                omega (
                  arith,
                  unvisited-lt (map (λ e. e.0) m) visiting id closed
                      (mem-map_of_mem (λ e. e.0) (id, subtask) m (mem_of_get id subtask m known)),
                )) in
            let ((ls, layers'), all) =
              derive_all-Returns (derive m fuel (id ∷ visiting)) subtask.dependencies layers
                deeper in
            ((layer_of ls, set id (layer_of ls) layers'), ground arith)
      ]
    ]
  ]

  derive_keys-Returns :
      (fuel : ℕ) (entries : Dict Subtask) (layers : Dict ℕ)
      → length m < fuel
      → Returns (derive_keys m fuel entries layers)
  unfolding derive_keys
  derive_keys-Returns fuel [] layers h = (layers, refl)
  derive_keys-Returns fuel ((id, s) ∷ rest) layers h =
      let ((layer, layers'), e) =
        derive-Returns fuel [] id layers
          (omega (arith, unvisited-nil (map (λ e. e.0) m), length-map (λ e. e.0) m)) in
      let (all, e') = derive_keys-Returns fuel rest layers' h in (all, ground arith)

  pub derive_topology_layers-Returns : Returns (derive_topology_layers m)
  unfolding derive_topology_layers
  derive_topology_layers-Returns = derive_keys-Returns (suc (length m)) m [] (omega arith)

-- The frontier is computed for every graph and all facts, also when dependencies are unknown or
-- form a cycle: the nested calls never use up the fuel, one unit more than there are subtasks.
pub derive_runnable_frontier_total :
    (locale_le : String → String → Bool) (subtasks : List Subtask) (facts : List RuntimeFact)
    → (ids : List String) × (derive_runnable_frontier locale_le subtasks facts ≡ some ids)
unfolding derive_runnable_frontier
derive_runnable_frontier_total locale_le subtasks facts =
    let (layers, e) = derive_topology_layers-Returns (index_by (λ s. s.id) subtasks) in
    (ordered locale_le layers subtasks facts, ground arith)
