-- ===== src/Kernel/Decide/Control/Partial.antt =====
-- When `decideTaskControl` accepts a partial result.
use mathlib.Core.List.{Perm}
use metaclaw.Base.{
  ℕ, ◌<◌, ◌≡◌, refl, sym, ap, inl, inr, ◌↔◌, ◌⊎◌, Bool, true, false, ◌||◌, not, some, String, List,
  [], In, map, filter, any, any-false, mem-map, mem-map_of_mem, mem-filter, mem-filter_of_mem,
  mem-sort_by, text_le, text_le_total, text_le_trans, Sorted, sort_by-Sorted, sort_by-Perm, length,
  Option, none, Option-cases, arith, eq_iff,
}
use metaclaw.Host.{Host}
use metaclaw.Kernel.Model.{Event, SubtaskStatus, TaskStatus}
use metaclaw.Kernel.Snapshot.{
  TaskFact, CancellationSubtaskFact, TaskControlSnapshot, Decision, accept_partial_result,
}
use metaclaw.Kernel.Select.{decision, present}
use metaclaw.Kernel.Decide.Control.{
  cancel_whole_task, cancel_some_subtasks, accept_partial, ControlRequest, named_task,
  decide_task_control, decide_subtasks_cancel, decide_task_cancel, decide_partial_result,
  cancel_closure, ids_with, is_subtask_done, is_subtask_cancelled,
}

-- The ids of the subtasks with one status, which the test decides: no more and no fewer, each as
-- often as in the snapshot, by code units.
pub record SortedIds (test : SubtaskStatus → Bool) (status : SubtaskStatus)
    (subtasks : List CancellationSubtaskFact) (ids : List String) : Type 0 where
  pub sorted : Sorted text_le ids
  pub members :
      (id : String)
      → In id ids
        ↔ ((s : CancellationSubtaskFact) × In s subtasks × (s.id ≡ id) × (s.status ≡ status))
  pub as_often : Perm ids (map (λ s. s.id) (filter (λ s. test s.status) subtasks))

ids_with-SortedIds :
    (test : SubtaskStatus → Bool) (status : SubtaskStatus) (subtasks : List CancellationSubtaskFact)
    → ((s : SubtaskStatus) → (test s ≡ true) ↔ (s ≡ status))
    → SortedIds test status subtasks (ids_with test subtasks)
unfolding ids_with
ids_with-SortedIds test status subtasks exact =
    let chosen : CancellationSubtaskFact → Bool = λ s. test s.status in
    let id_of : CancellationSubtaskFact → String = λ s. s.id in
    let ids = map id_of (filter chosen subtasks) in
    record {
      sorted = sort_by-Sorted text_le text_le_total text_le_trans ids;
      members = λ id. (
        λ m.
            let (s, n, e) =
              mem-map id_of id (filter chosen subtasks) ((mem-sort_by text_le id ids).0 m) in
            let (k, c) = mem-filter chosen s subtasks n in (s, k, sym e, (exact s.status).0 c),
        λ (s, k, e, q). (mem-sort_by text_le id ids).1 (
            rw (← e) (
              mem-map_of_mem id_of s (filter chosen subtasks)
                (mem-filter_of_mem chosen s subtasks k ((exact s.status).1 q)))),
      );
      as_often = sort_by-Perm text_le ids;
    }

is_subtask_done_iff : (s : SubtaskStatus) → (is_subtask_done s ≡ true) ↔ (s ≡ SubtaskStatus.done)
is_subtask_done_iff s = ground arith

is_subtask_cancelled_iff :
    (s : SubtaskStatus) → (is_subtask_cancelled s ≡ true) ↔ (s ≡ SubtaskStatus.cancelled)
is_subtask_cancelled_iff s = ground arith

present-same : (o : Option String) (id : String) → present o ≡ some id → o ≡ some id
present-same none id h = h
present-same (some String.[]) id h = absurd (ground arith)
present-same (some (String.◌∷◌ c s)) id h = h

named_task-named :
    (event : Event) (o : Option TaskFact) (task : TaskFact)
    → named_task event o ≡ some task
    → (o ≡ some task) × (event.task_id ≡ some task.id)
named_task-named event none task h = elim (Option-cases (present event.task_id)) [
  | inl e ↦ absurd (ground arith)
  | inr (id, e) ↦ absurd (ground arith)
]
named_task-named event (some t) task h = elim (Option-cases (present event.task_id)) [
  | inl e ↦ absurd (ground arith)
  | inr (id, e) ↦
      let same_task : t ≡ task = ground arith in
      let same_id : t.id ≡ id = ground (arith, eq_iff t.id id) in
      (ap some same_task, rw (← same_task, same_id) (present-same event.task_id id e))
]

-- What an accepted partial result rests on: the blocked task that the event names, in a partial
-- cancellation with nothing left to clean up, whose subtasks are all done or cancelled.
pub record PartialResult (event : Event) (snapshot : TaskControlSnapshot)
    (task_id generation_id : String) (graph_revision : ℕ) (completed cancelled : List String)
    : Type 0 where
  pub task : TaskFact
  pub of_snapshot : snapshot.task ≡ some task
  pub of_event : event.task_id ≡ some task.id
  pub of_action : task_id ≡ task.id
  pub blocked : task.status ≡ TaskStatus.blocked
  pub in_generation : snapshot.generation_id ≡ some generation_id
  pub in_revision : snapshot.graph_revision ≡ some graph_revision
  pub cancelled_in_part : snapshot.partial_cancellation ≡ true
  pub clean : snapshot.completion_blocked_reasons ≡ []
  pub closed :
      (s : CancellationSubtaskFact)
      → In s snapshot.subtasks
      → (s.status ≡ SubtaskStatus.done) ⊎ (s.status ≡ SubtaskStatus.cancelled)
  pub some_completed : 0 < length completed
  pub completed_ids : SortedIds is_subtask_done SubtaskStatus.done snapshot.subtasks completed
  pub cancelled_ids :
      SortedIds is_subtask_cancelled SubtaskStatus.cancelled snapshot.subtasks cancelled

decide_partial_result-PartialResult :
    (event : Event) (task : TaskFact) (snapshot : TaskControlSnapshot) (g : String) (r : ℕ)
    (t g' : String) (r' : ℕ) (completed cancelled : List String)
    → snapshot.task ≡ some task
    → event.task_id ≡ some task.id
    → snapshot.generation_id ≡ some g
    → snapshot.graph_revision ≡ some r
    → (decide_partial_result event task snapshot g r).action
      ≡ accept_partial_result t g' r' completed cancelled
    → PartialResult event snapshot t g' r' completed cancelled
unfolding decide_partial_result decision
decide_partial_result-PartialResult event task snapshot g r t g' r' completed cancelled n m p q h =
    let all_closed : any (λ s. not (is_subtask_done s.status || is_subtask_cancelled s.status))
          snapshot.subtasks
        ≡ false =
      ground arith in
    let same_completed : ids_with is_subtask_done snapshot.subtasks ≡ completed = ground arith in
    let same_cancelled : ids_with is_subtask_cancelled snapshot.subtasks ≡ cancelled =
      ground arith in
    record {
      task = task;
      of_snapshot = n;
      of_event = m;
      of_action = ground arith;
      blocked = ground arith;
      in_generation = ground arith;
      in_revision = ground arith;
      cancelled_in_part = ground arith;
      clean = ground arith;
      closed = λ s i. closed_status s (any-false _ s snapshot.subtasks all_closed i);
      some_completed = ground arith;
      completed_ids = rw (← same_completed) (
          ids_with-SortedIds is_subtask_done SubtaskStatus.done snapshot.subtasks
            is_subtask_done_iff);
      cancelled_ids = rw (← same_cancelled) (
          ids_with-SortedIds is_subtask_cancelled SubtaskStatus.cancelled snapshot.subtasks
            is_subtask_cancelled_iff);
    }
  where
    closed_status :
        (s : CancellationSubtaskFact)
        → not (is_subtask_done s.status || is_subtask_cancelled s.status) ≡ false
        → (s.status ≡ SubtaskStatus.done) ⊎ (s.status ≡ SubtaskStatus.cancelled)
    closed_status s h = ground arith

module _ (host : Host) where
  -- A partial result is accepted only on request, for the blocked task of the event and of the
  -- snapshot, in the generation and revision of the snapshot, with a partial cancellation and
  -- nothing left to clean up, all of whose subtasks are done or cancelled, at least one done; the
  -- one list holds exactly the ids of the done subtasks and the other exactly those of the
  -- cancelled ones, each as often as in the snapshot and in the order of code units.
  pub decide_task_control_accepts :
      (event : Event) (request : ControlRequest) (snapshot : TaskControlSnapshot) (d : Decision)
      (t g : String) (r : ℕ) (completed cancelled : List String)
      → decide_task_control host event request snapshot ≡ some d
      → d.action ≡ accept_partial_result t g r completed cancelled
      → (request ≡ accept_partial) × PartialResult event snapshot t g r completed cancelled
  unfolding decide_task_control decision decide_task_cancel decide_subtasks_cancel cancel_closure
  decide_task_control_accepts event cancel_whole_task snapshot d t g r completed cancelled h k =
      absurd (ground arith)
  decide_task_control_accepts event (cancel_some_subtasks targets) snapshot d t g r completed
        cancelled h k =
      absurd (ground arith)
  decide_task_control_accepts event accept_partial snapshot d t g r completed cancelled h k =
      elim (Option-cases (named_task event snapshot.task)) [
        | inl n ↦ absurd (ground arith)
        | inr (task, n) ↦ elim (Option-cases (present snapshot.generation_id)) [
          | inl p ↦ absurd (ground arith)
          | inr (generation_id, p) ↦ elim (Option-cases snapshot.graph_revision) [
            | inl q ↦ absurd (ground arith)
            | inr (revision, q) ↦
                let e : decide_partial_result event task snapshot generation_id revision ≡ d =
                  ground arith in
                let (of_snapshot, of_event) = named_task-named event snapshot.task task n in
                (
                  refl,
                  decide_partial_result-PartialResult event task snapshot generation_id revision t g
                      r completed cancelled of_snapshot of_event
                      (present-same snapshot.generation_id generation_id p) q (rw e k),
                )
          ]
        ]
      ]
