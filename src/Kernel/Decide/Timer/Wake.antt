-- ===== src/Kernel/Decide/Timer/Wake.antt =====
-- What `decideTimer` authorizes.
use metaclaw.Base.{
  ◌≡◌, inl, inr, true, false, some, String, List, [], ◌∷◌, map, Option-cases, arith,
}
use metaclaw.Host.{Host}
use metaclaw.Kernel.Model.{Event, TimerTick, Retry}
use metaclaw.Kernel.Snapshot.{TaskFact, TimerSnapshot, DispatchItem, dispatch_batch}
use metaclaw.Kernel.Select.{decision, single_dispatch_batch}
use metaclaw.Kernel.Decide.Control.{named_task, is_blocked}
use metaclaw.Kernel.Decide.Timer.{decide_timer, decide_retry_wake, decide_capacity_wake, earlier}

module _ (host : Host) where
  -- An attempt that a timer starts belongs to a blocked task whose wake is authorized, is due, and
  -- continues the attempt that the retry names with its AgentClass.
  pub record Due (event : Event) (tick : TimerTick) (snapshot : TimerSnapshot) (t : String)
      (items : List DispatchItem) : Type 0 where
    pub task : TaskFact
    pub named : named_task event snapshot.task ≡ some task
    pub blocked : is_blocked task.status ≡ true
    pub authorized : snapshot.wake_authorized ≡ true
    pub same_task : t ≡ task.id
    pub due : earlier host event.occurred_at tick.scheduled_for ≡ false
    pub retry : Retry
    pub is_retry : tick.retry ≡ some retry
    pub classes : map (λ i. i.agent_class_name) items ≡ retry.agent_class_name ∷ []
    pub sources : map (λ i. i.source_attempt_id) items ≡ some retry.source_attempt_id ∷ []

  retry_wake-due :
      (event : Event) (tick : TimerTick) (snapshot : TimerSnapshot) (task_id t : String)
      (items : List DispatchItem)
      → (decide_retry_wake host event tick snapshot task_id).action ≡ dispatch_batch t items
      → (t ≡ task_id)
        × (earlier host event.occurred_at tick.scheduled_for ≡ false)
        × ((r : Retry) × (tick.retry ≡ some r)
            × (map (λ i. i.agent_class_name) items ≡ r.agent_class_name ∷ [])
            × (map (λ i. i.source_attempt_id) items ≡ some r.source_attempt_id ∷ []))
  unfolding decide_retry_wake decision single_dispatch_batch
  retry_wake-due event tick snapshot task_id t items h = elim (Option-cases tick.retry) [
    | inl e ↦ absurd (ground arith)
    | inr (r, e) ↦ (ground arith, ground arith, (r, e, ground arith, ground arith))
  ]

  -- A timer starts an attempt only for the blocked task of the event whose wake is authorized,
  -- not before the scheduled time, and it continues the attempt that the retry names with its
  -- AgentClass.
  pub decide_timer-Due :
      (event : Event) (tick : TimerTick) (snapshot : TimerSnapshot) (t : String)
      (items : List DispatchItem)
      → (decide_timer host event tick snapshot).action ≡ dispatch_batch t items
      → Due event tick snapshot t items
  unfolding decide_timer decision decide_capacity_wake
  decide_timer-Due event tick snapshot t items h =
      elim (Option-cases (named_task event snapshot.task)) [
        | inl n ↦ absurd (ground arith)
        | inr (task, n) ↦
            let wake : (decide_retry_wake host event tick snapshot task.id).action
                ≡ dispatch_batch t items =
              ground arith in
            let (k, due, (r, e, c, o)) = retry_wake-due event tick snapshot task.id t items wake in
            record {
              task = task;
              named = n;
              blocked = ground arith;
              authorized = ground arith;
              same_task = k;
              due = due;
              retry = r;
              is_retry = e;
              classes = c;
              sources = o;
            }
      ]
