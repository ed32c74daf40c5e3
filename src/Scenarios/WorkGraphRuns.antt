-- ===== src/Scenarios/WorkGraphRuns.antt =====
-- Runs of the frontier, of the cancellation and of the check for cycles on a small graph.
use metaclaw.WorkGraph.Cancellation.Visit.{visit, visit_all}
use metaclaw.Base.{
  map, set, sort_by, unique, ℕ, ◌≡◌, refl, sym, ap, ◌↔◌, inl, inr, true, false, none, some, String,
  List, [], ◌∷◌, In, text_le, text_le_total, text_le_trans, Before, length, ◌≤◌, ◌<◌, get,
  if◌then◌else◌, ◌==◌, arith, index_by,
}
use metaclaw.WorkGraph.{Subtask}
use metaclaw.WorkGraph.Frontier.{RuntimeFact, RuntimeStatus, derive_runnable_frontier}
use metaclaw.WorkGraph.Frontier.Members.{Runnable, derive_runnable_frontier_members}
use metaclaw.WorkGraph.Frontier.Layers.{derive_runnable_frontier_total}
use metaclaw.WorkGraph.Cancellation.{
  deeper_first, dependents_of, depths_of, judge, known_subtask, next_of, order_closure, Node,
  CancellationFact, CancellationStatus, ClosureResult, ok, derive_cancellation_closure, fact_is,
}
use metaclaw.WorkGraph.Cancellation.Closure.{IsClosure}
use metaclaw.WorkGraph.Cancellation.Dependents.{DependsOn}
use metaclaw.WorkGraph.Cancellation.Guarantees.{
  Closed, derive_cancellation_closure-IsClosure, derive_cancellation_closure_open,
  derive_cancellation_closure_order, derive_cancellation_closure_total,
}
use metaclaw.WorkGraph.Cancellation.Accepted.{node_of, accepted_cancellation_total}
use metaclaw.WorkGraph.Validation.Cycle.{contains_cycle, edges}
use metaclaw.WorkGraph.Validation.{validate_work_graph}
use metaclaw.WorkGraph.Validation.WellFormed.{WellFormed, validate_work_graph-WellFormed}
use metaclaw.WorkGraph.Validation.Topology.{Chain}
use metaclaw.WorkGraph.Validation.Acyclic.{contains_cycle_iff, heights}
use metaclaw.Scenarios.{subtask, needs}

abbrev fact : String → RuntimeStatus → RuntimeFact
fact id status = record {
  subtask_id = id;
  status = status;
  first_dispatch_order = none;
  has_pending_or_active_attempt = false;
}

abbrev graph : List Subtask
graph =
    subtask "a" [] "codex"
    ∷ subtask "b" (needs "a" ∷ []) "codex"
    ∷ subtask "c" (needs "b" ∷ []) "codex"
    ∷ []

abbrev facts : List RuntimeFact
facts =
    fact "a" RuntimeStatus.done ∷ fact "b" RuntimeStatus.ready ∷ fact "c" RuntimeStatus.ready ∷ []

frontier_run : derive_runnable_frontier text_le graph facts ≡ some ("b" ∷ [])
unfolding derive_runnable_frontier text_le set get
frontier_run = refl

derive_runnable_frontier_members_example :
    In {A = String} "b" ("b" ∷ []) ↔ ((s : Subtask) × In s graph × (s.id ≡ "b") × Runnable facts s)
derive_runnable_frontier_members_example =
    derive_runnable_frontier_members text_le graph facts ("b" ∷ []) frontier_run "b"

derive_runnable_frontier_total_example :
    (ids : List String) × (derive_runnable_frontier text_le graph facts ≡ some ids)
derive_runnable_frontier_total_example = derive_runnable_frontier_total text_le graph facts

abbrev nodes : List Node
nodes =
    record { id = "a"; dependencies = [] }
    ∷ record { id = "b"; dependencies = "a" ∷ [] }
    ∷ record { id = "c"; dependencies = "b" ∷ [] }
    ∷ []

abbrev open_fact : String → CancellationFact
open_fact id = record { subtask_id = id; status = CancellationStatus.ready }

abbrev open_facts : List CancellationFact
open_facts = open_fact "a" ∷ open_fact "b" ∷ open_fact "c" ∷ []

closure_run :
    derive_cancellation_closure text_le nodes open_facts ("b" ∷ []) ≡ some (ok ("c" ∷ "b" ∷ []))
unfolding derive_cancellation_closure text_le sort_by unique known_subtask depths_of visit_all visit
    get next_of dependents_of set judge order_closure deeper_first fact_is index_by
closure_run = refl

derive_cancellation_closure-IsClosure_example : IsClosure nodes ("b" ∷ []) ("c" ∷ "b" ∷ [])
derive_cancellation_closure-IsClosure_example =
    derive_cancellation_closure-IsClosure text_le nodes open_facts ("b" ∷ []) ("c" ∷ "b" ∷ [])
      closure_run

derive_cancellation_closure_open_example : ¬ Closed open_facts "c"
derive_cancellation_closure_open_example =
    derive_cancellation_closure_open text_le nodes open_facts ("b" ∷ []) ("c" ∷ "b" ∷ []) "c"
      closure_run (inl refl)

c_needs_b : DependsOn nodes "c" "b"
c_needs_b = (record { id = "c"; dependencies = "b" ∷ [] }, inr (inr (inl refl)), refl, inl refl)

derive_cancellation_closure_order_example : Before {A = String} "c" "b" ("c" ∷ "b" ∷ [])
derive_cancellation_closure_order_example =
    derive_cancellation_closure_order text_le nodes open_facts text_le_total text_le_trans
      ("b" ∷ []) ("c" ∷ "b" ∷ []) "c" "b" closure_run (inr (inl refl)) c_needs_b

-- How many subtasks stand above one.
abbrev height : String → ℕ
height k = if k == "a" then 2 else if k == "b" then 1 else 0

height_falls : (j k : String) → DependsOn nodes j k → height j < height k
height_falls j k (s, inl e, i, m) = absurd (rw (ap (λ n. n.dependencies) e) at m)
height_falls j k (s, inr (inl e), i, m) = elim (rw (ap (λ n. n.dependencies) e) at m) [
  | inl a ↦ rw (a, sym i, ap (λ n. n.id) e) (omega arith)
  | inr z ↦ absurd z
]
height_falls j k (s, inr (inr (inl e)), i, m) = elim (rw (ap (λ n. n.dependencies) e) at m) [
  | inl a ↦ rw (a, sym i, ap (λ n. n.id) e) (omega arith)
  | inr z ↦ absurd z
]
height_falls j k (s, inr (inr (inr z)), i, m) = absurd z

height_low : (k : String) → height k ≤ length nodes
height_low k = ground arith

derive_cancellation_closure_total_example :
    (r : ClosureResult) × (derive_cancellation_closure text_le nodes open_facts ("b" ∷ []) ≡ some r)
derive_cancellation_closure_total_example =
    derive_cancellation_closure_total text_le nodes open_facts ("b" ∷ []) height height_falls
      height_low

abbrev loop : List (String × List String)
loop = ("a", "b" ∷ []) ∷ ("b", "a" ∷ []) ∷ []

contains_cycle_iff_example : (contains_cycle loop ≡ true) ↔ ((k : String) × Chain loop k k)
contains_cycle_iff_example = contains_cycle_iff loop

abbrev line : List (String × List String)
line = ("a", []) ∷ ("b", "a" ∷ []) ∷ []

line_run : contains_cycle line ≡ false
unfolding contains_cycle get
line_run = refl

heights_example : (above : String → ℕ) × ((a d : String) → In d (edges line a) → above d < above a)
heights_example = heights line line_run

abbrev fork : List Subtask
fork =
    subtask "a" [] "codex"
    ∷ subtask "b" (needs "a" ∷ []) "codex"
    ∷ subtask "c" (needs "a" ∷ []) "claude"
    ∷ []

fork_run : validate_work_graph text_le fork ≡ []
unfolding validate_work_graph sort_by metaclaw.Base.trim
    metaclaw.WorkGraph.Validation.Contract.is_key metaclaw.Base.any_char metaclaw.Base.text_length
    contains_cycle
fork_run = refl

validate_work_graph-WellFormed_example : WellFormed fork
validate_work_graph-WellFormed_example = validate_work_graph-WellFormed text_le fork fork_run

accepted_cancellation_total_example :
    (r : ClosureResult) × (derive_cancellation_closure text_le
        (map node_of fork)
        open_facts
        ("a" ∷ [])
      ≡ some r)
accepted_cancellation_total_example =
    accepted_cancellation_total text_le fork open_facts ("a" ∷ []) fork_run
