-- ===== src/WorkGraph/Cancellation/Accepted.antt =====
-- A graph that `validateWorkGraph` accepts, as `deriveCancellationClosure` sees it.
use metaclaw.Base.{
  ℕ, ◌+◌, ◌≤◌, ◌<◌, ◌≡◌, ap, inl, inr, if◌then◌else◌, some, String, List, [], ◌∷◌, In, map, mem-map,
  ltb, Bool, length, arith,
}
use metaclaw.WorkGraph.{Subtask, Dependency}
use metaclaw.WorkGraph.Cancellation.{
  Node, CancellationFact, ClosureResult, derive_cancellation_closure,
}
use metaclaw.WorkGraph.Cancellation.Dependents.{DependsOn}
use metaclaw.WorkGraph.Cancellation.Guarantees.{derive_cancellation_closure_total}
use metaclaw.WorkGraph.Validation.{validate_work_graph}
use metaclaw.WorkGraph.Validation.WellFormed.{validate_work_graph-WellFormed}

-- The subtask with the ids of its dependencies.
abbrev pub node_of : Subtask → Node
node_of s = record { id = s.id; dependencies = map (λ d. d.from_subtask_id) s.dependencies }

module _ (height : String → ℕ) where
  -- How many subtasks are higher than `k`.
  above : ℕ → List Subtask → ℕ
  above k [] = 0
  above k (s ∷ ss) = (if ltb k (height s.id) then 1 else 0) + above k ss

  above-le : (k : ℕ) (ss : List Subtask) → above k ss ≤ length (map node_of ss)
  unfolding above
  above-le k [] = ground arith
  above-le k (s ∷ ss) = ground (arith, above-le k ss)

  above-falls : (j k : ℕ) (ss : List Subtask) → k ≤ j → above j ss ≤ above k ss
  unfolding above
  above-falls j k [] h = ground arith
  above-falls j k (s ∷ ss) h = ground (arith, above-falls j k ss h)

  above-lt :
      (s : Subtask) (k : ℕ) (ss : List Subtask)
      → In s ss
      → k < height s.id
      → above (height s.id) ss < above k ss
  unfolding above
  above-lt s k [] m h = absurd m
  above-lt s k (t ∷ ss) (inl e) h = rw (← e) (ground (arith, above-falls (height s.id) k ss))
  above-lt s k (t ∷ ss) (inr m) h = ground (arith, above-lt s k ss m h)

  depends-above :
      (subtasks : List Subtask)
      → ((s : Subtask) (d : Dependency)
          → In s subtasks
          → In d s.dependencies
          → height d.from_subtask_id < height s.id)
      → (j k : String) → DependsOn (map node_of subtasks) j k
      → above (height j) subtasks < above (height k) subtasks
  depends-above subtasks falls j k (n, m, e, i) =
      let (s, p, q) = mem-map node_of n subtasks m in
      let (d, r, t) =
        mem-map (λ d. d.from_subtask_id) k s.dependencies (rw (ap (λ x. x.dependencies) q) at i) in
      rw (← e, q, t) (above-lt s (height d.from_subtask_id) subtasks p (falls s d p r))

module _ (locale_le : String → String → Bool) where
  -- If the validation of a work graph reports no violation, the derivation of a cancellation over
  -- its subtasks returns, for all facts and targets.
  pub accepted_cancellation_total :
      (subtasks : List Subtask) (facts : List CancellationFact) (targets : List String)
      → validate_work_graph locale_le subtasks ≡ []
      → (r : ClosureResult) × (derive_cancellation_closure locale_le
            (map node_of subtasks)
            facts
            targets
          ≡ some r)
  accepted_cancellation_total subtasks facts targets h =
      let (height, falls) = (validate_work_graph-WellFormed locale_le subtasks h).acyclic in
      derive_cancellation_closure_total locale_le (map node_of subtasks) facts targets
        (λ k. above height (height k) subtasks) (depends-above height subtasks falls)
        (λ k. above-le height (height k) subtasks)
