-- ===== src/Kernel/Decide/Dispatch/Guarantees.antt =====
-- What `decideDispatch` authorizes: the items of a batch and the completion of a Task.
use metaclaw.Base.{
  ◌≢◌, all-mem, List-cases, ◌≤◌, ◌<◌, min, ◌≡◌, inl, inr, true, false, some, String, List, [], ◌∷◌,
  In, length, length-take-le, filter_map, Option-cases, Bool-cases, arith,
}
use metaclaw.Host.{Host}
use metaclaw.Kernel.Model.{Event, SubtaskStatus}
use metaclaw.Kernel.Snapshot.{
  ReplanRequest, pending_quiescence, SubtaskFact, Dispatch, DispatchItemFact, DispatchItem,
  dispatch_batch, complete_task,
}
use metaclaw.Kernel.Select.{
  first_order, select_dispatchable_subtasks, dispatch_batch_items, dispatchable,
}
use metaclaw.Kernel.Select.Batch.{
  MayDispatch, select-MayDispatch, IsItem, IsUsable, batch_from-IsItem, batch_from-Rising,
  batch_from-length, Rising, first_order-above,
}
use metaclaw.Kernel.Decide.Dispatch.{
  is_done, all_done, replan_pending, target_task, is_graph_ready, other_task_runs, decide_idle,
  dispatch_selected, decide_dispatch,
}

module _ (host : Host) (event : Event) (snapshot : Dispatch) where
  dispatch_selected-batch :
      (task_id t : String) (selected : List SubtaskFact) (items : List DispatchItem)
      → (dispatch_selected host event snapshot task_id selected).action ≡ dispatch_batch t items
      → (items ≡ dispatch_batch_items host event snapshot selected) × (t ≡ task_id)
  unfolding dispatch_selected decide_idle
  dispatch_selected-batch task_id t [] items h = absurd (ground arith)
  dispatch_selected-batch task_id t (first ∷ others) items h = (ground arith, ground arith)

  decide_dispatch-selected :
      (t : String) (items : List DispatchItem)
      → (decide_dispatch host event snapshot).action ≡ dispatch_batch t items
      → (items ≡ dispatch_batch_items host event snapshot (select_dispatchable_subtasks snapshot))
        × (target_task event snapshot ≡ some t)
        × (is_graph_ready snapshot.graph_state ≡ true)
        × (other_task_runs snapshot.running_task_id t ≡ false)
  unfolding decide_dispatch
  decide_dispatch-selected t items h = elim (Option-cases (target_task event snapshot)) [
    | inl e ↦ absurd (ground arith)
    | inr (task_id, e) ↦
        let selected = select_dispatchable_subtasks snapshot in
        elim (Bool-cases (is_graph_ready snapshot.graph_state)) [
          | inr g ↦ absurd (ground arith)
          | inl g ↦ elim (Bool-cases (other_task_runs snapshot.running_task_id task_id)) [
            | inl r ↦ absurd (ground arith)
            | inr r ↦
                let (i, k) = dispatch_selected-batch task_id t selected items (ground arith) in
                (i, rw k e, g, rw k r)
          ]
        ]
  ]

  -- A batch may be launched: its items are ready Subtasks of the frontier with usable AgentClasses,
  -- no more than there are slots, and their orders follow those of the earlier items.
  pub record SafeBatch (items : List DispatchItem) : Type 0 where
    pub subtask_of : (i : DispatchItem) → In i items → SubtaskFact
    pub may_dispatch : (i : DispatchItem) (m : In i items) → MayDispatch snapshot (subtask_of i m)
    pub same_id : (i : DispatchItem) (m : In i items) → i.subtask_id ≡ (subtask_of i m).id
    pub class_usable :
        (i : DispatchItem) (m : In i items)
        → IsUsable host (subtask_of i m) snapshot event.occurred_at [] i.agent_class_name
    pub in_slots : length items ≤ min snapshot.available_slots snapshot.max_concurrent_attempts
    pub behind :
        (i : DispatchItem) (d : DispatchItemFact)
        → In i items
        → In d snapshot.dispatch_items
        → d.order < i.order
    pub rising : Rising (first_order snapshot.dispatch_items) items

  select-length :
      length (select_dispatchable_subtasks snapshot)
      ≤ min snapshot.available_slots snapshot.max_concurrent_attempts
  unfolding select_dispatchable_subtasks
  select-length =
      length-take-le (min snapshot.available_slots snapshot.max_concurrent_attempts)
        (filter_map (dispatchable snapshot) snapshot.frontier)

  items-IsItem :
      (i : DispatchItem)
      → In i (dispatch_batch_items host event snapshot (select_dispatchable_subtasks snapshot))
      → IsItem host event snapshot
          (first_order snapshot.dispatch_items)
          (select_dispatchable_subtasks snapshot)
          i
  unfolding dispatch_batch_items
  items-IsItem i m =
      batch_from-IsItem host event snapshot (first_order snapshot.dispatch_items)
        (select_dispatchable_subtasks snapshot) i m

  items-SafeBatch :
      SafeBatch (dispatch_batch_items host event snapshot (select_dispatchable_subtasks snapshot))
  unfolding dispatch_batch_items
  items-SafeBatch = record {
    subtask_of = λ i m. (items-IsItem i m).subtask;
    may_dispatch =
        λ i m. select-MayDispatch snapshot (items-IsItem i m).subtask (items-IsItem i m).member;
    same_id = λ i m. (items-IsItem i m).same_id;
    class_usable = λ i m. (items-IsItem i m).class_usable;
    in_slots = omega (
      arith,
      select-length,
      batch_from-length host event snapshot (first_order snapshot.dispatch_items)
          (select_dispatchable_subtasks snapshot),
    );
    behind = λ i d m n.
        let h = first_order-above d snapshot.dispatch_items n in
        let k = (items-IsItem i m).at_least in omega arith;
    rising =
        batch_from-Rising host event snapshot (first_order snapshot.dispatch_items)
          (select_dispatchable_subtasks snapshot);
  }

  -- Every batch that a dispatch authorizes consists of ready subtasks of the frontier without an
  -- active attempt or a resource conflict, each with an AgentClass of its list that is not
  -- unavailable, no more of them than slots and the concurrency limit allow, with strictly rising
  -- orders behind all earlier ones; it belongs to the task of the event, whose graph is ready
  -- while no other task runs.
  pub decide_dispatch-SafeBatch :
      (t : String) (items : List DispatchItem)
      → (decide_dispatch host event snapshot).action ≡ dispatch_batch t items
      → SafeBatch items
        × (target_task event snapshot ≡ some t)
        × (is_graph_ready snapshot.graph_state ≡ true)
        × (other_task_runs snapshot.running_task_id t ≡ false)
  decide_dispatch-SafeBatch t items h =
      let (e, k, g, r) = decide_dispatch-selected t items h in (rw e items-SafeBatch, k, g, r)

  all_done-done :
      all_done snapshot ≡ true
      → (snapshot.subtasks ≢ [])
        × ((s : SubtaskFact) → In s snapshot.subtasks → s.status ≡ SubtaskStatus.done)
  all_done-done h = elim (List-cases snapshot.subtasks) [
    | inl e ↦ absurd (ground arith)
    | inr (s, rest, e) ↦ (
      λ q. cc,
      λ t m. done_status t (all-mem (λ u. is_done u.status) t snapshot.subtasks (ground arith) m),
    )
  ]
    where
      done_status : (t : SubtaskFact) → is_done t.status ≡ true → t.status ≡ SubtaskStatus.done
      done_status t k = ground arith

  -- A replan of the generation waits until nothing runs in it.
  pub record ReplanWaits : Type 0 where
    pub request : ReplanRequest
    pub of_snapshot : snapshot.generation_replan_request ≡ some request
    pub waits : request.status ≡ pending_quiescence

  replan_pending-no_ReplanWaits : replan_pending snapshot ≡ false → ¬ ReplanWaits
  replan_pending-no_ReplanWaits h w = absurd (ground (arith, h, w.of_snapshot, w.waits))

  decide_idle-completes :
      (task_id t : String)
      → (decide_idle event snapshot task_id).action ≡ complete_task t
      → (all_done snapshot ≡ true)
        × (snapshot.completion_blocked_reasons ≡ [])
        × (replan_pending snapshot ≡ false)
        × (t ≡ task_id)
  unfolding decide_idle
  decide_idle-completes task_id t h = (ground arith, ground arith, ground arith, ground arith)

  -- A dispatch completes a task only if it has subtasks and all are done, nothing blocks the
  -- completion, no replan waits for quiescence, nothing can be dispatched, and the task is the
  -- one of the event and of the snapshot.
  pub decide_dispatch_completes :
      (t : String)
      → (decide_dispatch host event snapshot).action ≡ complete_task t
      → (snapshot.subtasks ≢ [])
        × ((s : SubtaskFact) → In s snapshot.subtasks → s.status ≡ SubtaskStatus.done)
        × (snapshot.completion_blocked_reasons ≡ [])
        × (¬ ReplanWaits)
        × (select_dispatchable_subtasks snapshot ≡ [])
        × (target_task event snapshot ≡ some t)
  unfolding decide_dispatch dispatch_selected
  decide_dispatch_completes t h = elim (Option-cases (target_task event snapshot)) [
    | inl e ↦ absurd (ground arith)
    | inr (task_id, e) ↦
        let none_selected : select_dispatchable_subtasks snapshot ≡ [] = ground arith in
        let (d, b, r, k) = decide_idle-completes task_id t (ground arith) in
        let (some_subtask, each_done) = all_done-done d in
        (some_subtask, each_done, b, replan_pending-no_ReplanWaits r, none_selected, rw k e)
  ]
