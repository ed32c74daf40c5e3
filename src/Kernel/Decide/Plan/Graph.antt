-- ===== src/Kernel/Decide/Plan/Graph.antt =====
-- The branch of `decidePlan` for a work graph, and `decideAvailabilityRecovery`, which admits a
-- deferred one, of src/kernel/control-kernel.ts.
use metaclaw.Base.{
  ◌+◌, Bool, true, false, ◌&&◌, ◌||◌, not, if◌then◌else◌, Option, none, some, get_or, is_some,
  String, ◌⧺◌, ltb, eqb, List, [], ◌∷◌, ◌++◌, map, filter, any, contains, join, same, truthy,
  unique,
}
use metaclaw.Host.{Host}
use metaclaw.WorkGraph.{Subtask, Proposal, context_ref_key}
use metaclaw.WorkGraph.Frontier.{max_safe}
use metaclaw.WorkGraph.Validation.{validate_work_graph}
use metaclaw.WorkGraph.Validation.Report.{code_name}
use metaclaw.Kernel.Model.{Event, PlanProposed, ProposalSource, initial, replan}
use metaclaw.Kernel.Snapshot.{
  TaskFact, PlanAdmission, AvailabilityRecovery, Decision, reject_request, request_clarification,
  no_op, authorize_task_plan, defer_task_plan_for_availability, activate_deferred_task_plan,
}
use metaclaw.Kernel.Select.{
  present, decision, first_return, deterministic_task_id, unavailable_agent_classes,
}
use metaclaw.Kernel.Decide.Control.{named_task, is_blocked}

abbrev pub is_initial : ProposalSource → Bool
is_initial initial = true
is_initial _ = false

abbrev pub is_replan : ProposalSource → Bool
is_replan replan = true
is_replan _ = false

-- `subtasks.flatMap(...)`
unfoldable pub concat_map : {A : Type 0} → (A → List String) → List A → List String
concat_map f [] = []
concat_map f (x ∷ xs) = f x ++ concat_map f xs

-- The keys of the context references that the snapshot does not list.
unfoldable pub invalid_refs : List String → Proposal → List String
unfolding concat_map context_ref_key
invalid_refs eligible graph =
    concat_map
      (λ s. filter (λ key. not (contains eligible key)) (map context_ref_key s.context_refs))
      graph.subtasks

-- A Subtask without the AgentClasses that are unavailable, and such a graph.
unfoldable pub available_subtask : List String → Subtask → Subtask
available_subtask unavailable s = record s {
  preferred_agent_class_list =
      filter (λ name. not (contains unavailable name)) s.preferred_agent_class_list;
}

unfoldable pub available_graph : List String → Proposal → Proposal
unfolding available_subtask
available_graph unavailable graph = record graph {
  subtasks = map (available_subtask unavailable) graph.subtasks;
}

abbrev pub has_no_class : Subtask → Bool
has_no_class s = elim s.preferred_agent_class_list [ [] ↦ true | c ∷ cs ↦ false ]

unfoldable pub lacks_class : Proposal → Bool
lacks_class graph = any has_no_class graph.subtasks

-- The refusals that depend on the identity of the plan alone: its generation, its revision and
-- the tasks that run or have a graph already.
unfoldable pub revision_guards : Event → PlanProposed → PlanAdmission → List (Bool × Decision)
unfolding decision
revision_guards event plan snapshot =
    let task_id = plan.proposal.task.task_id in
    let revision = plan.target_graph_revision in
    let refused : String → Decision = λ why. decision event reject_request why in
    (
      not (truthy (some plan.generation_id)) || ltb max_safe revision || ltb revision 1,
      refused "invalid graph generation or revision",
    )
    ∷ (
      is_initial plan.proposal_source && not (eqb revision 1),
      refused "initial plan must authorize graph revision 1",
    )
    ∷ (
      not (is_initial plan.proposal_source) && (not (truthy task_id) || ltb revision 2),
      refused "replan must target an existing Task and a later revision",
    )
    ∷ (
      is_some (present snapshot.running_task_id) && not (same task_id snapshot.running_task_id),
      refused ("single-active Task constraint: " ⧺ get_or snapshot.running_task_id ""),
    )
    ∷ (
      is_initial plan.proposal_source
          && truthy task_id
          && contains snapshot.v5_work_graph_task_ids (get_or task_id ""),
      refused ("task " ⧺ get_or task_id "" ⧺ " already has an active v5 work graph"),
    )
    ∷ []

-- The plan cannot run now: a replan of a task waits, any other plan is refused.
unfoldable pub defer_or_reject : Event → PlanProposed → List String → Proposal → Decision
unfolding decision concat_map unique
defer_or_reject event plan unavailable graph =
    if is_replan plan.proposal_source && truthy plan.proposal.task.task_id
    then decision event
        (defer_task_plan_for_availability (get_or plan.proposal.task.task_id "") event
          (unique (
            concat_map (λ s. filter (contains unavailable) s.preferred_agent_class_list)
              graph.subtasks))
          (get_or plan.availability_explanation
            "The revised plan is waiting because every eligible Executor for at least one Subtask is unavailable."))
        "latest replan proposal deferred until Executor availability recovers"
    else decision event reject_request "no healthy canonical AgentClass remains"

module _ (host : Host) where
  -- What follows the refusals, with the graph as it may run now.
  unfoldable pub admit_graph : Event → PlanProposed → Proposal → Decision
  unfolding decision validate_work_graph join code_name deterministic_task_id
  admit_graph event plan graph = elim (validate_work_graph host.locale_le graph.subtasks) [
    | v ∷ vs ↦
        decision event reject_request
          (join "; " (map (λ w. code_name w.code ⧺ ": " ⧺ w.message) (v ∷ vs)))
    | [] ↦
        decision event
          (authorize_task_plan (record {
            task_id = get_or plan.proposal.task.task_id (deterministic_task_id event.id);
            task = plan.proposal.task;
            work_graph = graph;
            generation_id = plan.generation_id;
            graph_revision = plan.target_graph_revision;
            proposal_source = plan.proposal_source;
          }))
          "work graph authorized"
  ]

  unfoldable pub graph_for_now : Event → PlanProposed → PlanAdmission → Proposal → Decision
  unfolding decision invalid_refs available_graph lacks_class defer_or_reject admit_graph join
      unavailable_agent_classes
  graph_for_now event plan snapshot graph =
      elim (invalid_refs snapshot.eligible_context_ref_keys graph) [
        | r ∷ rs ↦
            decision event
              (request_clarification
                "The proposed context references are not available for this task.")
              ("unqualified context refs: " ⧺ join ", " (r ∷ rs))
        | [] ↦
            let unavailable =
              unavailable_agent_classes host snapshot.executor_statuses event.occurred_at in
            if lacks_class (available_graph unavailable graph)
            then defer_or_reject event plan unavailable graph
            else admit_graph event plan (available_graph unavailable graph)
      ]

  unfoldable pub decide_work_graph : Event → PlanProposed → PlanAdmission → Decision
  unfolding decision revision_guards first_return graph_for_now
  decide_work_graph event plan snapshot = elim plan.proposal.work_graph [
    | none ↦ decision event reject_request "work graph is required"
    | some graph ↦
        get_or (first_return (revision_guards event plan snapshot))
          (graph_for_now event plan snapshot graph)
  ]

  -- The deferred plan and its graph, if the plan is still the next one of a blocked task.
  unfoldable pub current_deferred :
      Event → AvailabilityRecovery → Option (TaskFact × PlanProposed × Proposal)
  current_deferred event snapshot = elim (named_task event snapshot.task) [
    | none ↦ none
    | some task ↦ elim snapshot.deferred_plan [
      | none ↦ none
      | some deferred ↦ elim deferred.plan.proposal.work_graph [
        | none ↦ none
        | some graph ↦
            if is_blocked task.status
              && same deferred.task_id event.task_id
              && is_replan deferred.plan.proposal_source
              && eqb deferred.plan.target_graph_revision
                  (get_or snapshot.active_graph_revision 0 + 1)
              && same (some deferred.plan.generation_id) snapshot.active_generation_id
            then some (task, deferred.plan, graph)
            else none
      ]
    ]
  ]

  unfoldable pub decide_availability_recovery : Event → AvailabilityRecovery → Decision
  unfolding decision current_deferred available_graph lacks_class validate_work_graph
      unavailable_agent_classes
  decide_availability_recovery event snapshot = elim (current_deferred event snapshot) [
    | none ↦ decision event no_op "deferred availability proposal is missing, stale, or cancelled"
    | some (task, plan, graph) ↦
        let graph' =
          available_graph
            (unavailable_agent_classes host snapshot.executor_statuses event.occurred_at) graph in
        if lacks_class graph'
        then decision event no_op
            "recovered Executor does not make the deferred frontier executable"
        else elim (validate_work_graph host.locale_le graph'.subtasks) [
          | v ∷ vs ↦ decision event no_op "deferred availability proposal no longer validates"
          | [] ↦
              decision event
                (activate_deferred_task_plan event.correlation_id (record {
                  task_id = task.id;
                  task = plan.proposal.task;
                  work_graph = graph';
                  generation_id = plan.generation_id;
                  graph_revision = plan.target_graph_revision;
                  proposal_source = plan.proposal_source;
                }))
                "deferred availability proposal is executable again"
        ]
  ]
