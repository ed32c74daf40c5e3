-- ===== src/Kernel/Decide/Recovery/Budgets.antt =====
-- The budgets and the fences of `decideFailure`.
use metaclaw.Base.{
  ◌≤◌, ◌<◌, ◌≡◌, refl, ◌⊎◌, inl, inr, Bool, true, false, ◌&&◌, ◌||◌, not, Option, none, some,
  String, ◌==◌, List, In, map, find, same, Option-cases, Bool-cases, arith, ltb, leb, mem-find,
  same→eq,
}
use metaclaw.Host.{Host}
use metaclaw.Kernel.Failure.{KernelFailure}
use metaclaw.Kernel.Model.{Event, ExecutionOutcome, fallback, recovery_packet}
use metaclaw.Kernel.Snapshot.{
  SubtaskFact, Dispatch, Action, Decision, block_work, no_op, wait_for_retry,
  queue_generation_replan, park_for_replan,
}
use metaclaw.Kernel.Select.{
  present, decision, first_return, single_dispatch_batch, next_usable_agent_class,
  resource_grant_for_subtask, generation_replan_request_id,
}
use metaclaw.Kernel.Select.Guarded.{first_return-none, first_return-All}
use metaclaw.Kernel.Select.Batch.{IsUsable, next_class-IsUsable}
use metaclaw.Kernel.Decide.Dispatch.{is_correction}
use metaclaw.Kernel.Decide.Recovery.{
  is_external, is_retryable, needs_explicit_recovery, is_task_cancelled, is_subtask_cancelled,
  class_attempts, counted_attempts, is_preferred, failure_guards, recover_failure, decide_failure,
  fallback_or_replan, may_fall_back, add_milliseconds, retry_delay,
}

-- An action that starts no attempt, no replan and no timer.
pub data Inert : Action → Type 0 where
  nothing : Inert no_op
  block : (task_id : String) (subtask_id : Option String) → Inert (block_work task_id subtask_id)

or-false : (a b : Bool) → (a || b) ≡ false → (a ≡ false) × (b ≡ false)
or-false a b h = ground arith

not-false : (a : Bool) → not a ≡ false → a ≡ true
not-false a h = ground arith

module _ (host : Host) (event : Event) (outcome : ExecutionOutcome) (snapshot : Dispatch)
    (task_id : String) where
  -- What `decideFailure` goes by once its facts are complete and no fence applies.
  pub record Recovers (subtask : SubtaskFact) (attempt_id : String) (failure : KernelFailure)
      : Type 0 where
    pub known : In subtask snapshot.subtasks
    pub named : some subtask.id ≡ event.subtask_id
    pub attempt : present event.attempt_id ≡ some attempt_id
    pub failed : outcome.failure ≡ some failure
    pub no_correction : is_correction outcome.attempt_kind ≡ false
    pub not_orphaned : (failure.code == "startup_orphaned_work") ≡ false
    pub task_open : is_task_cancelled snapshot.task ≡ false
    pub subtask_open : is_subtask_cancelled subtask.status ≡ false
    pub allowed : snapshot.automatic_recovery_allowed ≡ true
    pub internal : is_external snapshot.recovery_safety ≡ false
    pub recoverable : needs_explicit_recovery failure.kind ≡ false

  fence-Inert :
      (subtask : SubtaskFact) (failure : KernelFailure) (d : Decision)
      → first_return (failure_guards event outcome snapshot task_id subtask failure) ≡ some d
      → Inert d.action
  unfolding failure_guards decision
  fence-Inert subtask failure d h =
      let blocked : Inert (block_work task_id (some subtask.id)) =
        block task_id (some subtask.id) in
      first_return-All (λ e. Inert e.action)
        (failure_guards event outcome snapshot task_id subtask failure) d
        (blocked, (blocked, (nothing, (nothing, (blocked, (blocked, tt)))))) h

  fence-open :
      (subtask : SubtaskFact) (failure : KernelFailure)
      → first_return (failure_guards event outcome snapshot task_id subtask failure) ≡ none
      → (is_correction outcome.attempt_kind ≡ false)
        × ((failure.code == "startup_orphaned_work") ≡ false)
        × (is_task_cancelled snapshot.task ≡ false)
        × (is_subtask_cancelled subtask.status ≡ false)
        × (snapshot.automatic_recovery_allowed ≡ true)
        × (is_external snapshot.recovery_safety ≡ false)
        × (needs_explicit_recovery failure.kind ≡ false)
  unfolding failure_guards
  fence-open subtask failure h =
      let (correction, (orphaned, (closed, (paused, (unsafe, (explicit, _)))))) =
        first_return-none (failure_guards event outcome snapshot task_id subtask failure) h in
      let (task, subtask') =
        or-false (is_task_cancelled snapshot.task) (is_subtask_cancelled subtask.status) closed in
      let (allowed, internal) =
        or-false (not snapshot.automatic_recovery_allowed) (is_external snapshot.recovery_safety)
          unsafe in
      (
        correction,
        orphaned,
        task,
        subtask',
        not-false snapshot.automatic_recovery_allowed allowed,
        internal,
        explicit,
      )

  -- A decision on a failure either starts nothing or passed all the fences.
  decide_failure-cases :
      Inert (decide_failure host event outcome snapshot task_id).action
      ⊎ ((subtask : SubtaskFact) × (attempt_id : String) × (failure : KernelFailure) × Recovers
            subtask attempt_id failure
          × (decide_failure host event outcome snapshot task_id
              ≡ recover_failure host event outcome snapshot task_id attempt_id subtask failure))
  unfolding decide_failure decision
  decide_failure-cases =
      let test : SubtaskFact → Bool = λ s. same (some s.id) event.subtask_id in
      elim (Option-cases (find test snapshot.subtasks)) [
        | inl e ↦ inl (rw (decide_failure, e) (block task_id event.subtask_id))
        | inr (subtask, e) ↦ elim (Option-cases (present event.attempt_id)) [
          | inl a ↦ inl (rw (decide_failure, e, a) (block task_id event.subtask_id))
          | inr (attempt_id, a) ↦ elim (Option-cases outcome.failure) [
            | inl f ↦ inl (rw (decide_failure, e, a, f) (block task_id event.subtask_id))
            | inr (failure, f) ↦
                elim (Option-cases
                  (first_return (failure_guards event outcome snapshot task_id subtask failure))) [
                    | inr (d, g) ↦
                        inl (rw (decide_failure, e, a, f, g) (fence-Inert subtask failure d g))
                    | inl g ↦
                        let (c, o, t, s, w, i, k) = fence-open subtask failure g in
                        let (m, n) = mem-find test subtask snapshot.subtasks e in
                        inr (
                          subtask,
                          attempt_id,
                          failure,
                          record {
                            known = m;
                            named = same→eq (some subtask.id) event.subtask_id n;
                            attempt = a;
                            failed = f;
                            no_correction = c;
                            not_orphaned = o;
                            task_open = t;
                            subtask_open = s;
                            allowed = w;
                            internal = i;
                            recoverable = k;
                          },
                          rw (decide_failure, e, a, f, g) refl,
                        )
                  ]
          ]
        ]
      ]

  abbrev pub attempted : SubtaskFact → List String
  attempted subtask = map (λ a. a.agent_class_name) (counted_attempts snapshot subtask.id)

  -- The actions that a failed attempt may lead to, each with what allows it.
  pub data Justified : Action → Type 0 where
    inert : (a : Action) → Inert a → Justified a
    wait :
        (subtask : SubtaskFact) (attempt_id : String) (failure : KernelFailure)
        → Recovers subtask attempt_id failure
        → is_retryable failure.kind ≡ true
        → is_preferred subtask outcome.agent_class_name ≡ true
        → class_attempts snapshot subtask.id outcome.agent_class_name ≤ 1
        → Justified (
            wait_for_retry task_id subtask.id
              (add_milliseconds host event.occurred_at (retry_delay failure.kind))
              outcome.agent_class_name
              attempt_id)
    fall_back :
        (subtask : SubtaskFact) (attempt_id : String) (failure : KernelFailure) (name : String)
        → Recovers subtask attempt_id failure
        → IsUsable host subtask snapshot event.occurred_at (attempted subtask) name
        → Justified (
            single_dispatch_batch event task_id subtask.id name fallback
              (some attempt_id)
              recovery_packet
              (resource_grant_for_subtask snapshot subtask.id)
              none)
    replan :
        (subtask : SubtaskFact) (attempt_id : String) (failure : KernelFailure)
        → Recovers subtask attempt_id failure
        → next_usable_agent_class host subtask snapshot event.occurred_at (attempted subtask) ≡ none
        → snapshot.automatic_replans_used < 1
        → Justified (
            queue_generation_replan task_id snapshot.generation_id snapshot.graph_revision
              (generation_replan_request_id task_id snapshot.generation_id snapshot.graph_revision))
    park :
        (subtask : SubtaskFact) (attempt_id : String) (failure : KernelFailure)
        → Recovers subtask attempt_id failure
        → next_usable_agent_class host subtask snapshot event.occurred_at (attempted subtask) ≡ none
        → 1 ≤ snapshot.automatic_replans_used
        → Justified (park_for_replan task_id)

  fallback_or_replan-Justified :
      (subtask : SubtaskFact) (attempt_id : String) (failure : KernelFailure)
      → Recovers subtask attempt_id failure
      → Justified (fallback_or_replan host event snapshot task_id attempt_id subtask).action
  unfolding fallback_or_replan decision
  fallback_or_replan-Justified subtask attempt_id failure r =
      elim (Option-cases
        (next_usable_agent_class host subtask snapshot event.occurred_at (attempted subtask))) [
          | inr (name, e) ↦
              rw (fallback_or_replan, e)
                (fall_back subtask attempt_id failure name r (
                  next_class-IsUsable host subtask snapshot event.occurred_at (attempted subtask)
                    name e))
          | inl e ↦ elim (Bool-cases (ltb snapshot.automatic_replans_used 1)) [
            | inl b ↦
                rw (fallback_or_replan, e, b) (replan subtask attempt_id failure r e (ground arith))
            | inr b ↦
                rw (fallback_or_replan, e, b) (park subtask attempt_id failure r e (ground arith))
          ]
        ]

  recover_failure-Justified :
      (subtask : SubtaskFact) (attempt_id : String) (failure : KernelFailure)
      → Recovers subtask attempt_id failure
      → Justified
          (recover_failure host event outcome snapshot task_id attempt_id subtask failure).action
  unfolding recover_failure decision
  recover_failure-Justified subtask attempt_id failure r =
      let tries = class_attempts snapshot subtask.id outcome.agent_class_name in
      let waits =
        is_retryable failure.kind && is_preferred subtask outcome.agent_class_name && leb tries 1 in
      elim (Bool-cases waits) [
        | inl e ↦
            rw (recover_failure, e)
              (wait subtask attempt_id failure r (ground arith) (ground arith) (ground arith))
        | inr e ↦
            elim (Bool-cases
              (not (is_retryable failure.kind) && not (may_fall_back failure.kind))) [
                | inl k ↦ rw (recover_failure, e, k) (inert _ (block task_id (some subtask.id)))
                | inr k ↦
                    rw (recover_failure, e, k)
                      (fallback_or_replan-Justified subtask attempt_id failure r)
              ]
      ]

  -- Whatever a failed attempt leads to is justified: no retry, fallback or replan for a cancelled
  -- task or subtask, for a correction, for orphaned work or for work whose external effects
  -- cannot be proved safe; a retry only of the preferred AgentClass with at most one counted
  -- attempt; a fallback only to a usable AgentClass of the list that was not tried; one replan
  -- when there is none left, and then parking.
  pub decide_failure-Justified :
      Justified (decide_failure host event outcome snapshot task_id).action
  decide_failure-Justified = elim decide_failure-cases [
    | inl i ↦ inert _ i
    | inr (subtask, attempt_id, failure, r, e) ↦
        rw e (recover_failure-Justified subtask attempt_id failure r)
  ]
