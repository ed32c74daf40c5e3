-- ===== src/Kernel/Decide/Plan/Admission.antt =====
-- What `decidePlan` and `decideAvailabilityRecovery` admit.
use metaclaw.Base.{
  ◌≤◌, ◌≡◌, refl, ap, inl, inr, true, false, ◌&&◌, not, none, some, get_or, is_some, String, List,
  [], In, mem-map, mem-filter, any-false, contains, same, Option-cases, Bool-cases, List-cases,
  arith, ltb,
}
use metaclaw.Host.{Host}
use metaclaw.WorkGraph.{Subtask, Proposal}
use metaclaw.WorkGraph.Validation.{validate_work_graph}
use metaclaw.WorkGraph.Validation.WellFormed.{WellFormed, validate_work_graph-WellFormed}
use metaclaw.Planning.{Parsed, validate_planning_agent_plan}
use metaclaw.Kernel.Model.{Event, PlanProposal, PlanProposed}
use metaclaw.Kernel.Snapshot.{
  PlanAdmission, Decision, reject_request, authorize_task_plan, TaskPlan,
}
use metaclaw.Kernel.Select.{
  present, decision, first_return, unavailable_agent_classes, deterministic_task_id,
}
use metaclaw.Kernel.Select.Guarded.{first_return-none, first_return-All}
use metaclaw.Kernel.Decide.Plan.{
  decide_plan, decide_action, decide_control, decide_authorization_resolution, unknown_task,
  is_state_changing, is_state_change_action,
}
use metaclaw.Kernel.Decide.Plan.Graph.{
  decide_work_graph, graph_for_now, admit_graph, revision_guards, defer_or_reject, invalid_refs,
  available_graph, available_subtask, lacks_class, has_no_class, is_initial,
}

-- A graph that may run: it is valid, so it is well formed, and each Subtask has AgentClasses, none of them unavailable.
pub record Runs (host : Host) (unavailable : List String) (graph : Proposal) : Type 0 where
  pub valid : validate_work_graph host.locale_le graph.subtasks ≡ []
  pub well_formed : WellFormed graph.subtasks
  pub has_class : (s : Subtask) → In s graph.subtasks → has_no_class s ≡ false
  pub usable :
      (s : Subtask) (name : String)
      → In s graph.subtasks
      → In name s.preferred_agent_class_list
      → contains unavailable name ≡ false

available-usable :
    (unavailable : List String) (graph : Proposal) (s : Subtask) (name : String)
    → In s (available_graph unavailable graph).subtasks
    → In name s.preferred_agent_class_list
    → contains unavailable name ≡ false
unfolding available_graph available_subtask
available-usable unavailable graph s name m n =
    let (t, k, e) = mem-map (available_subtask unavailable) s graph.subtasks m in
    let (_, u) =
      mem-filter (λ c. not (contains unavailable c)) name t.preferred_agent_class_list
        (rw (ap (λ x. x.preferred_agent_class_list) e) at n) in
    ground arith

available-Runs :
    (host : Host) (unavailable : List String) (graph : Proposal)
    → lacks_class (available_graph unavailable graph) ≡ false
    → validate_work_graph host.locale_le (available_graph unavailable graph).subtasks ≡ []
    → Runs host unavailable (available_graph unavailable graph)
unfolding lacks_class
available-Runs host unavailable graph l v = record {
  valid = v;
  well_formed =
      validate_work_graph-WellFormed host.locale_le (available_graph unavailable graph).subtasks v;
  has_class = λ s m. any-false has_no_class s (available_graph unavailable graph).subtasks l m;
  usable = available-usable unavailable graph;
}

module _ (host : Host) (safe_parse : PlanProposal → Parsed) (event : Event) where
  abbrev pub unavailable_now : PlanAdmission → List String
  unavailable_now snapshot =
      unavailable_agent_classes host snapshot.executor_statuses event.occurred_at

  admit-valid :
      (plan : PlanProposed) (graph : Proposal) (p : TaskPlan)
      → (admit_graph host event plan graph).action ≡ authorize_task_plan p
      → (validate_work_graph host.locale_le graph.subtasks ≡ [])
        × (p.work_graph ≡ graph)
        × (p.graph_revision ≡ plan.target_graph_revision)
        × (p.generation_id ≡ plan.generation_id)
        × (p.task_id ≡ get_or plan.proposal.task.task_id (deterministic_task_id event.id))
  unfolding admit_graph decision
  admit-valid plan graph p h =
      elim (List-cases (validate_work_graph host.locale_le graph.subtasks)) [
        | inr (v, vs, e) ↦ absurd (ground arith)
        | inl e ↦ (e, ground arith, ground arith, ground arith, ground arith)
      ]

  -- What an authorized plan went through.
  pub record Admits (plan : PlanProposed) (snapshot : PlanAdmission) (p : TaskPlan) : Type 0 where
    pub graph : Proposal
    pub proposed : plan.proposal.work_graph ≡ some graph
    pub qualified : invalid_refs snapshot.eligible_context_ref_keys graph ≡ []
    pub same_graph : p.work_graph ≡ available_graph (unavailable_now snapshot) graph
    pub runs : Runs host (unavailable_now snapshot) p.work_graph
    pub revision : (p.graph_revision ≡ plan.target_graph_revision) × (1 ≤ p.graph_revision)
    pub first_revision : is_initial plan.proposal_source ≡ true → p.graph_revision ≡ 1
    pub later_revision : is_initial plan.proposal_source ≡ false → 2 ≤ p.graph_revision
    pub no_other_task :
        (is_some (present snapshot.running_task_id)
          && not (same plan.proposal.task.task_id snapshot.running_task_id))
        ≡ false

  now-admitted :
      (plan : PlanProposed) (snapshot : PlanAdmission) (graph : Proposal) (p : TaskPlan)
      → (graph_for_now host event plan snapshot graph).action ≡ authorize_task_plan p
      → (invalid_refs snapshot.eligible_context_ref_keys graph ≡ [])
        × (p.work_graph ≡ available_graph (unavailable_now snapshot) graph)
        × (p.graph_revision ≡ plan.target_graph_revision)
        × Runs host (unavailable_now snapshot) p.work_graph
  unfolding graph_for_now decision defer_or_reject
  now-admitted plan snapshot graph p h =
      elim (List-cases (invalid_refs snapshot.eligible_context_ref_keys graph)) [
        | inr (r, rs, e) ↦ absurd (ground arith)
        | inl e ↦
            elim (Bool-cases (lacks_class (available_graph (unavailable_now snapshot) graph))) [
              | inl l ↦ absurd (ground arith)
              | inr l ↦
                  let graph' = available_graph (unavailable_now snapshot) graph in
                  let (v, g, r, _, _) = admit-valid plan graph' p (ground arith) in
                  (e, g, r, rw g (available-Runs host (unavailable_now snapshot) graph l v))
            ]
      ]

  -- The guards on the revision, read as what they let through.
  revision-open :
      (plan : PlanProposed) (snapshot : PlanAdmission)
      → first_return (revision_guards event plan snapshot) ≡ none
      → (1 ≤ plan.target_graph_revision)
        × (is_initial plan.proposal_source ≡ true → plan.target_graph_revision ≡ 1)
        × (is_initial plan.proposal_source ≡ false → 2 ≤ plan.target_graph_revision)
        × ((is_some (present snapshot.running_task_id)
              && not (same plan.proposal.task.task_id snapshot.running_task_id))
            ≡ false)
  unfolding revision_guards
  revision-open plan snapshot h =
      let (a, (b, (c, (d, _)))) = first_return-none (revision_guards event plan snapshot) h in
      (ground arith, λ i. ground arith, λ i. ground arith, d)

  revision-refuses :
      (plan : PlanProposed) (snapshot : PlanAdmission) (d : Decision)
      → first_return (revision_guards event plan snapshot) ≡ some d
      → d.action ≡ reject_request
  unfolding revision_guards decision
  revision-refuses plan snapshot d h =
      first_return-All (λ e. e.action ≡ reject_request) (revision_guards event plan snapshot) d
        (refl, (refl, (refl, (refl, (refl, tt))))) h

  work_graph-Admits :
      (plan : PlanProposed) (snapshot : PlanAdmission) (p : TaskPlan)
      → (decide_work_graph host event plan snapshot).action ≡ authorize_task_plan p
      → Admits plan snapshot p
  unfolding decide_work_graph decision
  work_graph-Admits plan snapshot p h = elim (Option-cases plan.proposal.work_graph) [
    | inl w ↦ absurd (ground arith)
    | inr (graph, w) ↦ elim (Option-cases (first_return (revision_guards event plan snapshot))) [
      | inr (d, g) ↦ let r = revision-refuses plan snapshot d g in absurd (ground arith)
      | inl g ↦
          let (q, s, r, u) = now-admitted plan snapshot graph p (ground arith) in
          let (one, first, later, other) = revision-open plan snapshot g in
          record {
            graph = graph;
            proposed = w;
            qualified = q;
            same_graph = s;
            runs = u;
            revision = (r, rw r one);
            first_revision = λ i. rw r (first i);
            later_revision = λ i. rw r (later i);
            no_other_task = other;
          }
    ]
  ]

  -- Only a proposed graph leads to an authorized plan.
  action-work_graph :
      (plan : PlanProposed) (snapshot : PlanAdmission) (p : TaskPlan)
      → (decide_action host safe_parse event plan snapshot).action ≡ authorize_task_plan p
      → (is_state_change_action plan.proposal.action ≡ true)
        × ((decide_work_graph host event plan snapshot).action ≡ authorize_task_plan p)
        × (unknown_task plan.proposal snapshot ≡ false)
  unfolding decide_action decision decide_control decide_authorization_resolution
  action-work_graph plan snapshot p h = (ground arith, ground arith, ground arith)

  -- A plan is authorized only if the validator accepts it, it needs no confirmation, its
  -- confidence is at least 0.45 and its task is known; its context references are eligible, no
  -- other task runs, an initial plan has revision 1 and a later one at least 2, and the
  -- authorized graph is the proposed one without the unavailable AgentClasses, is valid, with
  -- distinct ids, known dependencies and no cycle, and leaves every subtask an AgentClass.
  pub decide_plan-Admits :
      (plan : PlanProposed) (snapshot : PlanAdmission) (p : TaskPlan)
      → (decide_plan host safe_parse event plan snapshot).action ≡ authorize_task_plan p
      → Admits plan snapshot p
        × ((validate_planning_agent_plan host safe_parse plan.proposal snapshot.executor_catalog
              snapshot.pending_authorization_request).0
            ≡ true)
        × ((is_state_changing plan.proposal && plan.proposal.requires_confirmation) ≡ false)
        × (450000 ≤ plan.proposal.confidence)
        × (unknown_task plan.proposal snapshot ≡ false)
  unfolding decide_plan decision
  decide_plan-Admits plan snapshot p h =
      elim (Bool-cases
        (validate_planning_agent_plan host safe_parse plan.proposal snapshot.executor_catalog
          snapshot.pending_authorization_request).0) [
            | inr v ↦ absurd (ground arith)
            | inl v ↦
                elim (Bool-cases
                  (is_state_changing plan.proposal && plan.proposal.requires_confirmation)) [
                    | inl c ↦ absurd (ground arith)
                    | inr c ↦
                        elim (Bool-cases (
                          is_state_change_action plan.proposal.action
                          && ltb plan.proposal.confidence 450000)) [
                            | inl l ↦ absurd (ground arith)
                            | inr l ↦
                                let (s, w, u) = action-work_graph plan snapshot p (ground arith) in
                                (work_graph-Admits plan snapshot p w, v, c, ground arith, u)
                          ]
                  ]
          ]
