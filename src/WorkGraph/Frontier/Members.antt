-- ===== src/WorkGraph/Frontier/Members.antt =====
-- Which subtasks `deriveRunnableFrontier` returns.
use metaclaw.Base.{
  ℕ, sym, not, ◌&&◌, Dict, sort_by, ◌≡◌, ◌↔◌, Bool, true, false, some, String, List, all, filter,
  In, mem-map, mem-map_of_mem, mem-filter, mem-filter_of_mem, all-mem, all_of_mem, mem-sort_by, get,
  index_by, arith, Option-cases, inl, inr,
}
use metaclaw.WorkGraph.{Subtask, Dependency}
use metaclaw.WorkGraph.Frontier.{
  RuntimeFact, ready, done, is_ready, fact_done, is_runnable, derive_topology_layers, frontier_le,
  ordered, derive_runnable_frontier,
}

-- A subtask may start: its own fact is `ready` with no attempt under way, and the fact of each
-- dependency is `done`.
pub record Runnable (facts : List RuntimeFact) (s : Subtask) : Type 0 where
  pub fact : RuntimeFact
  pub found : get s.id (index_by (λ f. f.subtask_id) facts) ≡ some fact
  pub is_ready_fact : fact.status ≡ ready
  pub idle : fact.has_pending_or_active_attempt ≡ false
  pub met :
      (d : Dependency)
      → In d s.dependencies
      → (f : RuntimeFact) × (get d.from_subtask_id (index_by (λ f. f.subtask_id) facts) ≡ some f)
        × (f.status ≡ done)

module _ (facts : List RuntimeFact) where
  abbrev by_id : List (String × RuntimeFact)
  by_id = index_by (λ f. f.subtask_id) facts

  fact_done-met :
      (id : String)
      → fact_done by_id id ≡ true
      → (f : RuntimeFact) × (get id by_id ≡ some f) × (f.status ≡ done)
  unfolding fact_done
  fact_done-met id h = elim (Option-cases (get id by_id)) [
    | inl e ↦ cc (rw (e, fact_done) at h)
    | inr (f, e) ↦ (f, e, ground arith)
  ]

  tests : RuntimeFact → Subtask → Bool
  tests fact s =
      is_ready fact.status
      && not fact.has_pending_or_active_attempt
      && all (λ d. fact_done by_id d.from_subtask_id) s.dependencies

  tests-Runnable :
      (s : Subtask) (fact : RuntimeFact)
      → get s.id by_id ≡ some fact
      → tests fact s ≡ true
      → Runnable facts s
  unfolding tests
  tests-Runnable s fact e h = record {
    fact = fact;
    found = e;
    is_ready_fact = ground arith;
    idle = ground arith;
    met = λ d m.
        fact_done-met d.from_subtask_id
          (all-mem (λ d. fact_done by_id d.from_subtask_id) d s.dependencies (ground arith) m);
  }

  is_runnable-Runnable : (s : Subtask) → is_runnable by_id s ≡ true → Runnable facts s
  unfolding is_runnable tests
  is_runnable-Runnable s h = elim (Option-cases (get s.id by_id)) [
    | inl e ↦ cc (rw (e, is_runnable) at h)
    | inr (f, e) ↦ tests-Runnable s f e (rw (e, is_runnable) at h)
  ]

  fact_done_of_met :
      (id : String) (f : RuntimeFact)
      → get id by_id ≡ some f
      → f.status ≡ done
      → fact_done by_id id ≡ true
  unfolding fact_done
  fact_done_of_met id f e k = ground arith

  Runnable-is_runnable : (s : Subtask) → Runnable facts s → is_runnable by_id s ≡ true
  unfolding is_runnable
  Runnable-is_runnable s r = ground (
    arith,
    all_of_mem (λ d. fact_done by_id d.from_subtask_id) s.dependencies
        (λ d m. let (f, e, k) = r.met d m in fact_done_of_met d.from_subtask_id f e k),
  )

pub derived-ordered :
    (locale_le : String → String → Bool) (subtasks : List Subtask) (facts : List RuntimeFact)
    (ids : List String)
    → derive_runnable_frontier locale_le subtasks facts ≡ some ids
    → (layers : Dict ℕ) × (derive_topology_layers (index_by (λ s. s.id) subtasks) ≡ some layers)
      × (ids ≡ ordered locale_le layers subtasks facts)
unfolding derive_runnable_frontier
derived-ordered locale_le subtasks facts ids h =
    elim (Option-cases (derive_topology_layers (index_by (λ s. s.id) subtasks))) [
      | inl e ↦ absurd (ground arith)
      | inr (layers, e) ↦ (layers, e, ground arith)
    ]

module _ (locale_le : String → String → Bool) (layers : Dict ℕ) (subtasks : List Subtask)
    (facts : List RuntimeFact) (id : String) where
  abbrev Started : Type 0
  Started = (s : Subtask) × In s subtasks × (s.id ≡ id) × Runnable facts s

  ordered_sound : In id (ordered locale_le layers subtasks facts) → Started
  unfolding ordered
  ordered_sound m =
      let runs = is_runnable (by_id facts) in
      let le = frontier_le locale_le layers (by_id facts) in
      let (s, n, same_id) = mem-map (λ s. s.id) id (sort_by le (filter runs subtasks)) m in
      let (k, r) = mem-filter runs s subtasks ((mem-sort_by le s (filter runs subtasks)).0 n) in
      (s, k, sym same_id, is_runnable-Runnable facts s r)

  ordered_complete : Started → In id (ordered locale_le layers subtasks facts)
  unfolding ordered
  ordered_complete (s, m, same_id, r) =
      let runs = is_runnable (by_id facts) in
      let le = frontier_le locale_le layers (by_id facts) in
      let k = mem-filter_of_mem runs s subtasks m (Runnable-is_runnable facts s r) in
      rw (← same_id) (
        mem-map_of_mem (λ s. s.id) s (sort_by le (filter runs subtasks))
          ((mem-sort_by le s (filter runs subtasks)).1 k))

-- The ids of the frontier are exactly those of the subtasks whose own fact is ready without a
-- pending or active attempt and whose dependencies all have a fact that is done.
pub derive_runnable_frontier_members :
    (locale_le : String → String → Bool) (subtasks : List Subtask) (facts : List RuntimeFact)
    (ids : List String)
    → derive_runnable_frontier locale_le subtasks facts ≡ some ids
    → (id : String) → In id ids ↔ ((s : Subtask) × In s subtasks × (s.id ≡ id) × Runnable facts s)
derive_runnable_frontier_members locale_le subtasks facts ids h id =
    let (layers, _, e) = derived-ordered locale_le subtasks facts ids h in
    rw e (
      ordered_sound locale_le layers subtasks facts id,
      ordered_complete locale_le layers subtasks facts id,
    )
