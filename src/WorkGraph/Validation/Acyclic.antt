-- ===== src/WorkGraph/Validation/Acyclic.antt =====
-- `containsCycle` decides whether the dependencies have a cycle, and a graph without one has
-- heights.
use metaclaw.Base.{
  ℕ, suc, ◌≤◌, ◌<◌, ◌≡◌, ◌≢◌, ◌↔◌, inl, inr, true, false, if◌then◌else◌, Bool-cases, Option-cases,
  String, List, [], ◌∷◌, map, In, contains, contains-mem, contains_of_mem, length, length-map, Dict,
  get, mem_of_get, mem-map_of_mem, unvisited-nil, arith, eq_iff, ◌==◌,
}
use metaclaw.WorkGraph.Validation.Cycle.{
  unfinished, cycle, clear, edges, visit, walk_all, contains_cycle,
}
use metaclaw.WorkGraph.Validation.Topology.{
  Chain, Ordered, Loop, Walk-cases, Sound, visit_some-finished, visit-finished, visit_some-Sound,
  visit-Sound, visit_some-Loop, visit-Loop,
}

-- How far `k` stands from the end of the list, at its last place; 0 where it does not occur.
unfoldable pub rank : List String → String → ℕ
rank [] k = 0
rank (x ∷ xs) k = if contains xs k then rank xs k else if x == k then suc (length xs) else 0

rank-le : (xs : List String) (k : String) → rank xs k ≤ length xs
unfolding rank
rank-le [] k = omega arith
rank-le (x ∷ xs) k = ground (arith, rank-le xs k)

module _ (graph : Dict (List String)) where
  Ordered-mem :
      (xs : List String) (x d : String)
      → Ordered graph xs
      → In x xs
      → In d (edges graph x)
      → In d xs
  Ordered-mem [] x d o m e = absurd m
  Ordered-mem (y ∷ ys) x d o (inl same_id) e = inr (o.0 d (rw (← same_id) e))
  Ordered-mem (y ∷ ys) x d o (inr m) e = inr (Ordered-mem ys x d o.1 m e)

  -- A dependency stands behind what depends on it, so its rank is lower.
  rank-lt :
      (xs : List String) (x d : String)
      → Ordered graph xs
      → In x xs
      → In d (edges graph x)
      → rank xs d < rank xs x
  unfolding rank
  rank-lt [] x d o m e = absurd m
  rank-lt (y ∷ ys) x d o m e = elim (Bool-cases (contains ys x)) [
    | inl later ↦
        let n = contains-mem ys x later in
        ground (arith, contains_of_mem ys d (Ordered-mem ys x d o.1 n e), rank-lt ys x d o.1 n e)
    | inr here ↦ first here m
  ]
    where
      first : contains ys x ≡ false → In x (y ∷ ys) → rank (y ∷ ys) d < rank (y ∷ ys) x
      first here (inr n) = absurd (ground (arith, contains_of_mem ys x n))
      first here (inl same_id) =
          ground (arith, eq_iff y x, contains_of_mem ys d (o.0 d (rw (← same_id) e)), rank-le ys d)

  Chain-rank :
      (xs : List String) (a b : String)
      → Ordered graph xs
      → In a xs
      → Chain graph a b
      → In b xs × (rank xs b < rank xs a)
  Chain-rank xs a b o m (Chain.last e) = (Ordered-mem xs a b o m e, rank-lt xs a b o m e)
  Chain-rank xs a c o m (Chain.step {b = b} p e) =
      let (n, lt) = Chain-rank xs a b o m p in
      (Ordered-mem xs b c o n e, omega (arith, rank-lt xs b c o n e))

  edges-key : (a d : String) → In d (edges graph a) → In a (map (λ e. e.0) graph)
  edges-key a d m = elim (Option-cases (get a graph)) [
    | inl e ↦ absurd (ground arith)
    | inr (ids, e) ↦ mem-map_of_mem (λ e. e.0) (a, ids) graph (mem_of_get a ids graph e)
  ]

  Chain-key : (a b : String) → Chain graph a b → In a (map (λ e. e.0) graph)
  Chain-key a b (Chain.last e) = edges-key a b e
  Chain-key a c (Chain.step {b = b} p e) = Chain-key a b p

  walk_all-finished : walk_all graph ≢ unfinished
  unfolding walk_all
  walk_all-finished =
      visit_some-finished (visit graph (suc (suc (length graph))) [])
        (λ id v.
          visit-finished graph (suc (suc (length graph))) [] id v
            (omega (arith, unvisited-nil (map (λ e. e.0) graph), length-map (λ e. e.0) graph)))
        (map (λ e. e.0) graph) []

  walk_all-Sound :
      (v : List String) → walk_all graph ≡ clear v → Sound graph (map (λ e. e.0) graph) [] v
  unfolding walk_all
  walk_all-Sound v e =
      visit_some-Sound graph (visit graph (suc (suc (length graph))) [])
        (visit-Sound graph (suc (suc (length graph))) []) (map (λ e. e.0) graph) [] v e tt

  walk_all-Loop : walk_all graph ≡ cycle → Loop graph
  unfolding walk_all
  walk_all-Loop e =
      visit_some-Loop graph (visit graph (suc (suc (length graph))) []) (map (λ e. e.0) graph) []
        (λ id v m q. visit-Loop graph (suc (suc (length graph))) [] id v (λ w n. absurd n) q) e

  clear-no_Loop : (v : List String) → walk_all graph ≡ clear v → Loop graph → ⊥
  clear-no_Loop v e (k, p) =
      let s = walk_all-Sound v e in
      let (_, lt) = Chain-rank v k k s.ordered (s.found k (Chain-key k k p)) p in omega arith

  -- The check for cycles says yes exactly if some subtask depends on itself through a chain of
  -- one or more dependencies.
  pub contains_cycle_iff : (contains_cycle graph ≡ true) ↔ ((k : String) × Chain graph k k)
  unfolding contains_cycle
  contains_cycle_iff = (
    λ h. elim (Walk-cases (walk_all graph)) [
      | inl e ↦ absurd (walk_all-finished e)
      | inr (inl e) ↦ walk_all-Loop e
      | inr (inr (v, e)) ↦ absurd (ground arith)
    ],
    λ l. elim (Walk-cases (walk_all graph)) [
      | inl e ↦ ground arith
      | inr (inl e) ↦ ground arith
      | inr (inr (v, e)) ↦ absurd (clear-no_Loop v e l)
    ],
  )

  -- If the check for cycles says no, there is a height that falls along every dependency.
  pub heights :
      contains_cycle graph ≡ false
      → (height : String → ℕ) × ((a d : String) → In d (edges graph a) → height d < height a)
  unfolding contains_cycle
  heights h = elim (Walk-cases (walk_all graph)) [
    | inl e ↦ absurd (ground arith)
    | inr (inl e) ↦ absurd (ground arith)
    | inr (inr (v, e)) ↦
        let s = walk_all-Sound v e in
        (rank v, λ a d m. rank-lt v a d s.ordered (s.found a (edges-key a d m)) m)
  ]
