-- ===== src/WorkGraph/Validation/WellFormed.antt =====
-- What a graph that `validateWorkGraph` accepts satisfies.
use metaclaw.Base.{
  ℕ, ◌<◌, ◌&&◌, ◌≡◌, ◌≢◌, refl, inl, inr, Bool, true, false, not, if◌then◌else◌, String, List, [],
  ◌∷◌, ◌++◌, map, In, Distinct, is_empty, trim, Dict, arith, append-nil, List-cases, all,
  mem-sort_by,
}
use metaclaw.WorkGraph.{Subtask, Dependency}
use metaclaw.WorkGraph.Validation.Report.{Violation}
use metaclaw.WorkGraph.Validation.Cycle.{contains_cycle}
use metaclaw.WorkGraph.Validation.Acyclic.{heights}
use metaclaw.WorkGraph.Validation.{
  id_violations, graph_violations, found_violations, closing_violations, validate_work_graph,
  violation_le, is_nil,
}
use metaclaw.WorkGraph.Validation.Ids.{
  id_violations-FreshIds, FreshIds-Distinct, FreshIds-named, id_violations-known,
}
use metaclaw.WorkGraph.Validation.Dependencies.{graph_violations-Sound, graph_violations-edges}

-- Ids are distinct and named, dependencies known, single and without a cycle.
pub record WellFormed (subtasks : List Subtask) : Type 0 where
  pub present : subtasks ≢ []
  pub named : (s : Subtask) → In s subtasks → is_empty (trim s.id) ≡ false
  pub distinct : Distinct (map (λ s. s.id) subtasks)
  pub known :
      (s : Subtask) (d : Dependency)
      → In s subtasks
      → In d s.dependencies
      → In d.from_subtask_id (map (λ s. s.id) subtasks)
  pub other :
      (s : Subtask) (d : Dependency)
      → In s subtasks
      → In d s.dependencies
      → d.from_subtask_id ≢ s.id
  pub once : (s : Subtask) → In s subtasks → Distinct (map (λ d. d.from_subtask_id) s.dependencies)
  pub acyclic :
      (height : String → ℕ) × ((s : Subtask) (d : Dependency)
        → In s subtasks
        → In d s.dependencies
        → height d.from_subtask_id < height s.id)
  pub entry : (s : Subtask) × In s subtasks × (s.dependencies ≡ [])

-- Some subtask without dependencies, where not every one has dependencies.
entry-found :
    (ss : List Subtask)
    → all (λ s. not (is_nil s.dependencies)) ss ≡ false
    → (s : Subtask) × In s ss × (s.dependencies ≡ [])
entry-found [] h = cc
entry-found (s ∷ rest) h = elim (List-cases s.dependencies) [
  | inl none_left ↦ (s, inl refl, none_left)
  | inr (d, ds, e) ↦ let (t, m, q) = entry-found rest (ground arith) in (t, inr m, q)
]

closing_violations-nil :
    (ss : List Subtask) (by_id : Dict Subtask) (graph : Dict (List String))
    → closing_violations ss by_id graph ≡ []
    → ((not (is_nil ss) && all (λ s. not (is_nil s.dependencies)) ss) ≡ false)
      × (contains_cycle graph ≡ false)
unfolding closing_violations
closing_violations-nil ss by_id graph h =
    let parts = append-nil _ _ h in
    let first = append-nil _ _ parts.0 in (no_violation _ _ first.0, no_violation _ _ first.1)
  where
    no_violation : (b : Bool) (v : Violation) → (if b then v ∷ [] else []) ≡ [] → b ≡ false
    no_violation true v e = cc
    no_violation false v e = refl

found_violations-WellFormed :
    (subtasks : List Subtask) → found_violations subtasks ≡ [] → WellFormed subtasks
unfolding found_violations closing_violations
found_violations-WellFormed [] h = cc
found_violations-WellFormed (s ∷ rest) h =
    let ids = id_violations [] 0 (s ∷ rest) in
    let walk = graph_violations ids.1 [] 0 (s ∷ rest) in
    let closing = closing_violations (s ∷ rest) ids.1 walk.1 in
    let from_all = append-nil (ids.0 ++ walk.0) closing h in
    let from_loops = append-nil ids.0 walk.0 from_all.0 in
    let fresh = id_violations-FreshIds [] 0 (s ∷ rest) from_loops.0 in
    let sound = graph_violations-Sound ids.1 [] 0 (s ∷ rest) from_loops.1 in
    let unique_ids = FreshIds-Distinct [] (s ∷ rest) fresh in
    let closed = closing_violations-nil (s ∷ rest) ids.1 walk.1 from_all.1 in
    let (height, falls) = heights walk.1 closed.1 in
    record {
      present = λ e. cc;
      named = FreshIds-named [] (s ∷ rest) fresh;
      distinct = unique_ids;
      known = λ t d m n.
          elim (id_violations-known [] 0 (s ∷ rest) d.from_subtask_id ((sound t m).known d n)) [
            | inl e ↦ absurd cc
            | inr k ↦ k
          ];
      other = λ t d m n. (sound t m).other d n;
      once = λ t m. (sound t m).distinct;
      acyclic = (
        height,
        λ t d m n.
            falls t.id d.from_subtask_id
              (graph_violations-edges ids.1 [] 0 (s ∷ rest) unique_ids from_loops.1 t d m n),
      );
      entry = entry-found (s ∷ rest) closed.0;
    }

module _ (locale_le : String → String → Bool) where
  -- If the validation of a work graph reports no violation, the graph has a subtask and one
  -- without dependencies, no id is empty or stands twice, every dependency names another subtask
  -- of the graph and none is repeated in one subtask, and there is a height that falls along
  -- every dependency.
  pub validate_work_graph-WellFormed :
      (subtasks : List Subtask) → validate_work_graph locale_le subtasks ≡ [] → WellFormed subtasks
  unfolding validate_work_graph
  validate_work_graph-WellFormed subtasks h = elim (List-cases (found_violations subtasks)) [
    | inl e ↦ found_violations-WellFormed subtasks e
    | inr (v, vs, e) ↦ absurd (absent v (rw e (inl refl)))
  ]
    where
      absent : (v : Violation) → ¬ In v (found_violations subtasks)
      absent v m =
          rw h at ((mem-sort_by (violation_le locale_le) v (found_violations subtasks)).1 m)
