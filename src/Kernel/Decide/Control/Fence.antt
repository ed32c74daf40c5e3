-- ===== src/Kernel/Decide/Control/Fence.antt =====
-- What `decideTaskControl` authorizes to cancel.
use metaclaw.Base.{
  ℕ, ◌≡◌, refl, ap, inl, inr, ◌↔◌, Bool, some, String, List, In, map, filter, contains,
  contains-mem, contains_of_mem, mem-map, mem-map_of_mem, mem-filter, mem-filter_of_mem,
  mem-sort_by, Option-cases, arith,
}
use metaclaw.Host.{Host}
use metaclaw.WorkGraph.Cancellation.{ClosureResult, ok, rejected, derive_cancellation_closure}
use metaclaw.WorkGraph.Cancellation.Closure.{IsClosure}
use metaclaw.WorkGraph.Cancellation.Guarantees.{derive_cancellation_closure-IsClosure}
use metaclaw.Kernel.Model.{Event, SubtaskStatus}
use metaclaw.Kernel.Snapshot.{
  TaskFact, CancellationSubtaskFact, TaskControlSnapshot, Decision, cancel_subtasks,
}
use metaclaw.Kernel.Select.{decision, present}
use metaclaw.Kernel.Decide.Control.{
  cancel_whole_task, cancel_some_subtasks, accept_partial, ControlRequest, named_task,
  decide_task_control, decide_subtasks_cancel, decide_task_cancel, decide_partial_result,
  cancel_closure, expected_statuses, cancellation_nodes, cancellation_facts,
}

module _ (host : Host) where
  -- The expected statuses are those of the selected Subtasks.
  expected_statuses-mem :
      (subtasks : List CancellationSubtaskFact) (ids : List String) (id : String)
      (status : SubtaskStatus)
      → In (id, status) (expected_statuses host subtasks ids) ↔ (
          (s : CancellationSubtaskFact) × In s subtasks
          × In s.id ids
          × (id ≡ s.id)
          × (status ≡ s.status))
  unfolding expected_statuses
  expected_statuses-mem subtasks ids id status =
      let pair : CancellationSubtaskFact → String × SubtaskStatus = λ s. (s.id, s.status) in
      let chosen : CancellationSubtaskFact → Bool = λ s. contains ids s.id in
      let by_id : String × SubtaskStatus → String × SubtaskStatus → Bool =
        λ l r. host.locale_le l.0 r.0 in
      (
        λ m.
            let (s, n, e) =
              mem-map pair (id, status) (filter chosen subtasks)
                ((mem-sort_by by_id (id, status) (map pair (filter chosen subtasks))).0 m) in
            let (k, c) = mem-filter chosen s subtasks n in
            (s, k, contains-mem ids s.id c, ap (λ p. p.0) e, ap (λ p. p.1) e),
        λ (s, k, n, e, f). (mem-sort_by by_id (id, status) (map pair (filter chosen subtasks))).1 (
            rw (e, f)
              (mem-map_of_mem pair s (filter chosen subtasks)
                (mem-filter_of_mem chosen s subtasks k (contains_of_mem ids s.id n)))),
      )

  cancel_closure-ok :
      (event : Event) (task : TaskFact) (snapshot : TaskControlSnapshot) (g : String) (r : ℕ)
      (result : ClosureResult) (t g' : String) (r' : ℕ) (ids : List String)
      (expected : List (String × SubtaskStatus))
      → (cancel_closure host event task snapshot g r result).action
        ≡ cancel_subtasks t g' r' ids expected
      → (result ≡ ok ids) × (expected ≡ expected_statuses host snapshot.subtasks ids)
  unfolding cancel_closure decision
  cancel_closure-ok event task snapshot g r (ok ids') t g' r' ids expected h =
      (ground arith, ground arith)
  cancel_closure-ok event task snapshot g r (rejected w ids') t g' r' ids expected h =
      absurd (ground arith)

  subtasks_cancel-ok :
      (event : Event) (task : TaskFact) (snapshot : TaskControlSnapshot) (g : String) (r : ℕ)
      (targets : List String) (d : Decision) (t g' : String) (r' : ℕ) (ids : List String)
      (expected : List (String × SubtaskStatus))
      → decide_subtasks_cancel host event task snapshot g r targets ≡ some d
      → d.action ≡ cancel_subtasks t g' r' ids expected
      → IsClosure (cancellation_nodes snapshot.subtasks) targets ids
        × (expected ≡ expected_statuses host snapshot.subtasks ids)
  unfolding decide_subtasks_cancel
  subtasks_cancel-ok event task snapshot g r targets d t g' r' ids expected h k =
      let nodes = cancellation_nodes snapshot.subtasks in
      let facts = cancellation_facts snapshot.subtasks in
      elim (Option-cases (derive_cancellation_closure host.locale_le nodes facts targets)) [
        | inl e ↦ absurd (ground arith)
        | inr (result, e) ↦
            let same_d : cancel_closure host event task snapshot g r result ≡ d = ground arith in
            let (o, x) =
              cancel_closure-ok event task snapshot g r result t g' r' ids expected (rw same_d k) in
            (
              derive_cancellation_closure-IsClosure host.locale_le nodes facts targets ids
                  (rw o at e),
              x,
            )
      ]

  -- A cancellation of subtasks that is authorized covers the least set that holds the requested
  -- targets and everything that depends on a member, each once, and its expected statuses are
  -- exactly the statuses that the snapshot shows of those subtasks.
  pub decide_task_control_cancels :
      (event : Event) (request : ControlRequest) (snapshot : TaskControlSnapshot) (d : Decision)
      (t g : String) (r : ℕ) (ids : List String) (expected : List (String × SubtaskStatus))
      → decide_task_control host event request snapshot ≡ some d
      → d.action ≡ cancel_subtasks t g r ids expected
      → (targets : List String) × (request ≡ cancel_some_subtasks targets)
        × IsClosure (cancellation_nodes snapshot.subtasks) targets ids
        × ((id : String) (status : SubtaskStatus)
            → In (id, status) expected ↔ (
                (s : CancellationSubtaskFact) × In s snapshot.subtasks
                × In s.id ids
                × (id ≡ s.id)
                × (status ≡ s.status)))
  unfolding decide_task_control decision decide_task_cancel decide_partial_result
  decide_task_control_cancels event cancel_whole_task snapshot d t g r ids expected h k =
      absurd (ground arith)
  decide_task_control_cancels event accept_partial snapshot d t g r ids expected h k =
      absurd (ground arith)
  decide_task_control_cancels event (cancel_some_subtasks targets) snapshot d t g r ids expected h
        k =
      elim (Option-cases (named_task event snapshot.task)) [
        | inl n ↦ absurd (ground arith)
        | inr (task, n) ↦ elim (Option-cases (present snapshot.generation_id)) [
          | inl p ↦ absurd (ground arith)
          | inr (generation_id, p) ↦ elim (Option-cases snapshot.graph_revision) [
            | inl q ↦ absurd (ground arith)
            | inr (revision, q) ↦
                let same_call : decide_subtasks_cancel host event task snapshot generation_id
                      revision targets
                    ≡ some d =
                  ground arith in
                let (c, x) =
                  subtasks_cancel-ok event task snapshot generation_id revision targets d t g r ids
                    expected same_call k in
                (
                  targets,
                  refl,
                  c,
                  λ id status. rw x (expected_statuses-mem snapshot.subtasks ids id status),
                )
          ]
        ]
      ]
