-- ===== src/WorkGraph/Cancellation/Guarantees.antt =====
-- The guarantees of `deriveCancellationClosure`: closure, order, state and termination.
use metaclaw.Base.{
  get, index_by, ℕ, suc, ◌≤◌, ◌<◌, ◌≡◌, refl, ◌⊎◌, inl, inr, Bool, true, false, not, some,
  Bool-cases, Option-cases, String, List, [], ◌∷◌, In, filter, mem-filter_of_mem, length, unique,
  text_le, sort_by, Dict, Before, arith,
}
use metaclaw.WorkGraph.Cancellation.{
  Node, CancellationFact, CancellationStatus, ClosureResult, ok, rejected, empty_targets,
  unknown_subtask, is_done, is_cancelled, fact_is, judge, next_of, depths_of, order_closure,
  close_targets, derive_cancellation_closure, known_subtask,
}
use metaclaw.WorkGraph.Cancellation.Dependents.{DependsOn, mem-next_of}
use metaclaw.WorkGraph.Cancellation.Visit.{visit, visit-Returns, visit_all-Returns}
use metaclaw.WorkGraph.Cancellation.Closure.{
  IsClosure, IsClosure-targets, order_closure-IsClosure, order_closure-Before,
}

abbrev targets_of : List String → List String
targets_of ids = sort_by text_le (unique ids)

judge-ok :
    (facts : List CancellationFact) (closure ids : List String)
    → judge facts closure ≡ ok ids
    → (closure ≡ ids)
      × (filter (fact_is is_done facts) closure ≡ [])
      × (filter (fact_is is_cancelled facts) closure ≡ [])
unfolding judge
judge-ok facts closure ids h = (ground arith, ground arith, ground arith)

filter_nil-false :
    (p : String → Bool) (id : String) (xs : List String)
    → filter p xs ≡ []
    → In id xs
    → p id ≡ false
filter_nil-false p id xs e m = elim (Bool-cases (p id)) [
  | inl h ↦ absurd (rw e at (mem-filter_of_mem p id xs m h))
  | inr h ↦ h
]

-- The fact of a subtask, the last of those with its id, says that it is done or cancelled.
pub record Closed (facts : List CancellationFact) (id : String) : Type 0 where
  pub fact : CancellationFact
  pub of_id : get id (index_by (λ f. f.subtask_id) facts) ≡ some fact
  pub status :
      (fact.status ≡ CancellationStatus.done) ⊎ (fact.status ≡ CancellationStatus.cancelled)

Closed-judged :
    (facts : List CancellationFact) (id : String)
    → Closed facts id
    → fact_is is_done facts id ≡ false
    → fact_is is_cancelled facts id ≡ false
    → ⊥
unfolding fact_is
Closed-judged facts id c d k = absurd (ground (arith, c.of_id, c.status, d, k))

module _ (locale_le : String → String → Bool) (graph : List Node)
    (facts : List CancellationFact) where
  closed-depths :
      (targets ids : List String)
      → close_targets locale_le graph facts targets ≡ some (ok ids)
      → (depths : Dict ℕ) × (depths_of graph targets ≡ some depths)
        × (judge facts (order_closure locale_le depths) ≡ ok ids)
  unfolding close_targets
  closed-depths [] ids h = absurd (ground arith)
  closed-depths (t ∷ ts) ids h = elim (Option-cases (depths_of graph (t ∷ ts))) [
    | inl e ↦ absurd (ground arith)
    | inr (depths, e) ↦ (depths, e, ground arith)
  ]

  -- An accepted cancellation is the least set that holds the targets and every subtask that
  -- depends on a member, directly or through others, each subtask once.
  pub derive_cancellation_closure-IsClosure :
      (targets ids : List String)
      → derive_cancellation_closure locale_le graph facts targets ≡ some (ok ids)
      → IsClosure graph targets ids
  unfolding derive_cancellation_closure
  derive_cancellation_closure-IsClosure targets ids h =
      let (depths, e, j) = closed-depths (targets_of targets) ids h in
      let (same, _, _) = judge-ok facts (order_closure locale_le depths) ids j in
      rw (← same) (
        IsClosure-targets graph targets (order_closure locale_le depths)
          (order_closure-IsClosure graph (targets_of targets) depths e locale_le))

  -- No member of an accepted cancellation is done or cancelled by its fact, which is the last of
  -- those with its id.
  pub derive_cancellation_closure_open :
      (targets ids : List String) (id : String)
      → derive_cancellation_closure locale_le graph facts targets ≡ some (ok ids)
      → In id ids
      → ¬ Closed facts id
  unfolding derive_cancellation_closure
  derive_cancellation_closure_open targets ids id h m c =
      let (depths, e, j) = closed-depths (targets_of targets) ids h in
      let (same, d, k) = judge-ok facts (order_closure locale_le depths) ids j in
      Closed-judged facts id c (filter_nil-false (fact_is is_done facts) id ids (rw same at d) m)
        (filter_nil-false (fact_is is_cancelled facts) id ids (rw same at k) m)

  -- If the collation is a total preorder, every member of an accepted cancellation stands behind
  -- all the subtasks that depend on it.
  pub derive_cancellation_closure_order :
      (total : (x y : String) → (locale_le x y ≡ true) ⊎ (locale_le y x ≡ true))
      (transitive : (x y z : String)
        → locale_le x y ≡ true
        → locale_le y z ≡ true
        → locale_le x z ≡ true)
      (targets ids : List String) (j k : String)
      → derive_cancellation_closure locale_le graph facts targets ≡ some (ok ids)
      → In k ids
      → DependsOn graph j k
      → Before j k ids
  unfolding derive_cancellation_closure
  derive_cancellation_closure_order total transitive targets ids j k h m d =
      let (depths, e, r) = closed-depths (targets_of targets) ids h in
      let (same, _, _) = judge-ok facts (order_closure locale_le depths) ids r in
      rw (← same) (
        order_closure-Before graph (targets_of targets) depths e locale_le total transitive j k
          (rw (← same) at m) d)

  depths-Returns :
      (ts : List String) (height : String → ℕ)
      → ((j k : String) → DependsOn graph j k → height j < height k)
      → ((k : String) → height k ≤ length graph)
      → (d : Dict ℕ) × (depths_of graph ts ≡ some d)
  unfolding depths_of
  depths-Returns ts height falls low =
      visit_all-Returns (λ id d. visit (next_of graph) (suc (suc (length graph))) id 0 d) ts []
        (λ id d m.
          visit-Returns (next_of graph) height (λ k j n. falls j k ((mem-next_of graph j k).0 n))
            (suc (suc (length graph))) id 0 d (omega (arith, low id)))

  close_targets-Returns :
      (ts : List String)
      → ((d : Dict ℕ) × (depths_of graph ts ≡ some d))
      → (r : ClosureResult) × (close_targets locale_le graph facts ts ≡ some r)
  unfolding close_targets
  close_targets-Returns [] (d, e) = (rejected empty_targets [], refl)
  close_targets-Returns (t ∷ ts) (d, e) =
      split (filter (λ id. not (known_subtask graph facts id)) (t ∷ ts)) refl
    where
      split :
          (us : List String)
          → filter (λ id. not (known_subtask graph facts id)) (t ∷ ts) ≡ us
          → (r : ClosureResult) × (close_targets locale_le graph facts (t ∷ ts) ≡ some r)
      split [] f = (judge facts (order_closure locale_le d), ground arith)
      split (u ∷ us) f = (rejected unknown_subtask (u ∷ us), ground arith)

  -- If some height, at most the number of subtasks, rises from every subtask to its dependencies,
  -- as in a graph without a cycle, the derivation of a cancellation returns for all targets.
  pub derive_cancellation_closure_total :
      (targets : List String) (height : String → ℕ)
      → ((j k : String) → DependsOn graph j k → height j < height k)
      → ((k : String) → height k ≤ length graph)
      → (r : ClosureResult) × (derive_cancellation_closure locale_le graph facts targets ≡ some r)
  unfolding derive_cancellation_closure
  derive_cancellation_closure_total targets height falls low =
      close_targets-Returns (targets_of targets)
        (depths-Returns (targets_of targets) height falls low)
