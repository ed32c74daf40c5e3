-- ===== src/Kernel/Decide/Recovery.antt =====
-- `decideOutcome`, `decideFailure` and `fallbackOrReplan` of src/kernel/control-kernel.ts.
pub mod Budgets
use metaclaw.Base.{
  ℕ, ◌+◌, Bool, true, false, ◌&&◌, ◌||◌, not, if◌then◌else◌, Option, none, some, get_or, String,
  ◌⧺◌, ◌==◌, eqb, ltb, leb, List, [], ◌∷◌, map, filter, find, head?, length, contains, same,
  sort_by, text_le, show_nat,
}
use metaclaw.Host.{Host}
use metaclaw.Kernel.Failure.{
  KernelFailure, FailureKind, network, timeout, infrastructure, heartbeat_lost, permission,
  authentication, configuration, adapter, capability_mismatch, task_failed, quality_failed, stale,
  unknown,
}
use metaclaw.Kernel.Model.{
  Event, ExecutionOutcome, HandoffContractFailed, MergeConflict, TerminalKind, failed,
  SubtaskStatus, TaskStatus, RecoverySafety, external_non_idempotent, AttemptKind, fallback,
  contract_correction, merge_repair, native_session, recovery_packet, completion_correction,
  AttemptPayload,
}
use metaclaw.Kernel.Snapshot.{
  TaskFact, SubtaskFact, AttemptFact, Dispatch, Decision, block_work, park_for_replan, no_op,
  wait_for_capacity, wait_for_retry, queue_generation_replan, request_merge_replan,
}
use metaclaw.Kernel.Select.{
  present, decision, first_return, single_dispatch_batch, resource_grant_for_subtask,
  next_usable_agent_class, generation_replan_request_id,
}
use metaclaw.Kernel.Decide.Dispatch.{is_correction, decide_dispatch}

abbrev pub failure_kind_name : FailureKind → String
failure_kind_name network = "network"
failure_kind_name timeout = "timeout"
failure_kind_name infrastructure = "infrastructure"
failure_kind_name heartbeat_lost = "heartbeat_lost"
failure_kind_name permission = "permission"
failure_kind_name authentication = "authentication"
failure_kind_name configuration = "configuration"
failure_kind_name adapter = "adapter"
failure_kind_name capability_mismatch = "capability_mismatch"
failure_kind_name task_failed = "task_failed"
failure_kind_name quality_failed = "quality_failed"
failure_kind_name FailureKind.cancelled = "cancelled"
failure_kind_name stale = "stale"
failure_kind_name unknown = "unknown"

-- `permission`, `unknown`, `stale` and `cancelled`
abbrev pub needs_explicit_recovery : FailureKind → Bool
needs_explicit_recovery permission = true
needs_explicit_recovery unknown = true
needs_explicit_recovery stale = true
needs_explicit_recovery FailureKind.cancelled = true
needs_explicit_recovery _ = false

abbrev pub is_retryable : FailureKind → Bool
is_retryable network = true
is_retryable timeout = true
is_retryable infrastructure = true
is_retryable heartbeat_lost = true
is_retryable _ = false

-- The second list of kinds, those that another AgentClass may recover.
abbrev pub may_fall_back : FailureKind → Bool
may_fall_back authentication = true
may_fall_back configuration = true
may_fall_back adapter = true
may_fall_back capability_mismatch = true
may_fall_back task_failed = true
may_fall_back quality_failed = true
may_fall_back _ = false

abbrev pub retry_delay : FailureKind → ℕ
retry_delay network = 5000
retry_delay _ = 30000

abbrev pub is_task_cancelled : Option TaskFact → Bool
is_task_cancelled none = false
is_task_cancelled (some t) = elim t.status [ TaskStatus.cancelled ↦ true | _ ↦ false ]

abbrev pub is_task_parked : Option TaskFact → Bool
is_task_parked none = false
is_task_parked (some t) = elim t.status [ TaskStatus.parked ↦ true | _ ↦ false ]

abbrev pub is_subtask_cancelled : SubtaskStatus → Bool
is_subtask_cancelled SubtaskStatus.cancelled = true
is_subtask_cancelled _ = false

abbrev pub is_subtask_ready : SubtaskStatus → Bool
is_subtask_ready SubtaskStatus.ready = true
is_subtask_ready _ = false

abbrev pub is_external : RecoverySafety → Bool
is_external external_non_idempotent = true
is_external _ = false

-- The attempts of a Subtask that count against its AgentClasses.
abbrev pub counted_attempts : Dispatch → String → List AttemptFact
counted_attempts snapshot subtask_id =
    filter (λ a. (a.subtask_id == subtask_id) && not (is_correction a.attempt_kind))
      snapshot.attempts

-- `classAttempts`
unfoldable pub class_attempts : Dispatch → String → String → ℕ
class_attempts snapshot subtask_id name =
    length (filter (λ a. a.agent_class_name == name) (counted_attempts snapshot subtask_id))

unfoldable pub is_preferred : SubtaskFact → String → Bool
is_preferred subtask name = same (head? subtask.preferred_agent_class_list) (some name)

-- The guards of `decideFailure` that make no use of the failure's kind, and the kinds that need
-- an explicit recovery.
unfoldable pub failure_guards :
    Event
    → ExecutionOutcome
    → Dispatch
    → String
    → SubtaskFact
    → KernelFailure
    → List (Bool × Decision)
unfolding decision
failure_guards event outcome snapshot task_id subtask failure =
    let blocked : String → Decision =
      λ why. decision event (block_work task_id (some subtask.id)) why in
    (
      is_correction outcome.attempt_kind,
      blocked "contract retry failed and cannot enter ordinary recovery",
    )
    ∷ (
      failure.code == "startup_orphaned_work",
      blocked "startup orphaned work requires explicit recovery",
    )
    ∷ (
      is_task_cancelled snapshot.task || is_subtask_cancelled subtask.status,
      decision event no_op "cancellation fence makes the late attempt outcome stale",
    )
    ∷ (
      (failure.code == "task_paused")
          && is_task_parked snapshot.task
          && is_subtask_ready subtask.status,
      decision event no_op "pause fence settled the interrupted attempt for explicit resume",
    )
    ∷ (
      not snapshot.automatic_recovery_allowed || is_external snapshot.recovery_safety,
      blocked "automatic recovery cannot prove external effect safety",
    )
    ∷ (
      needs_explicit_recovery failure.kind,
      blocked (failure_kind_name failure.kind ⧺ " requires explicit recovery"),
    )
    ∷ []

module _ (host : Host) where
  -- `toISOString` throws beyond the last time value of ECMAScript, which is in the year 275760.
  unfoldable pub add_milliseconds : String → ℕ → String
  add_milliseconds value milliseconds = elim (host.parse_date value) [
    | none ↦ value
    | some timestamp ↦ host.iso_date (timestamp + milliseconds)
  ]

  unfoldable pub fallback_or_replan :
      Event → Dispatch → (task_id attempt_id : String) → SubtaskFact → Decision
  unfolding decision single_dispatch_batch resource_grant_for_subtask next_usable_agent_class
      generation_replan_request_id
  fallback_or_replan event snapshot task_id attempt_id subtask =
      elim (next_usable_agent_class host subtask snapshot event.occurred_at
        (map (λ a. a.agent_class_name) (counted_attempts snapshot subtask.id))) [
          | some name ↦
              decision event
                (single_dispatch_batch event task_id subtask.id name AttemptKind.fallback
                  (some attempt_id) recovery_packet (resource_grant_for_subtask snapshot subtask.id)
                  none)
                "next authorized fallback AgentClass selected"
          | none ↦
              if ltb snapshot.automatic_replans_used 1
              then decision event
                  (queue_generation_replan task_id snapshot.generation_id snapshot.graph_revision (
                    generation_replan_request_id task_id snapshot.generation_id
                      snapshot.graph_revision))
                  "authorized candidates exhausted; one coalesced automatic replan is allowed"
              else decision event (park_for_replan task_id) "automatic replan budget exhausted"
        ]

  -- What follows the guards.
  unfoldable pub recover_failure :
      Event
      → ExecutionOutcome
      → Dispatch
      → (task_id attempt_id : String) → SubtaskFact
      → KernelFailure
      → Decision
  unfolding decision fallback_or_replan add_milliseconds class_attempts is_preferred
  recover_failure event outcome snapshot task_id attempt_id subtask failure =
      if is_retryable failure.kind
        && is_preferred subtask outcome.agent_class_name
        && leb (class_attempts snapshot subtask.id outcome.agent_class_name) 1
      then decision event
          (wait_for_retry task_id subtask.id
            (add_milliseconds event.occurred_at (retry_delay failure.kind)) outcome.agent_class_name
            attempt_id)
          ("preferred AgentClass continuation delayed after " ⧺ failure_kind_name failure.kind)
      else if not (is_retryable failure.kind) && not (may_fall_back failure.kind)
      then decision event (block_work task_id (some subtask.id))
          (failure_kind_name failure.kind ⧺ " has no safe recovery policy")
      else fallback_or_replan event snapshot task_id attempt_id subtask

  unfoldable pub decide_failure : Event → ExecutionOutcome → Dispatch → String → Decision
  unfolding decision failure_guards first_return recover_failure
  decide_failure event outcome snapshot task_id =
      let incomplete =
        decision event (block_work task_id event.subtask_id) "failure facts are incomplete" in
      elim (find (λ s. same (some s.id) event.subtask_id) snapshot.subtasks) [
        | none ↦ incomplete
        | some subtask ↦ elim (present event.attempt_id) [
          | none ↦ incomplete
          | some attempt_id ↦ elim outcome.failure [
            | none ↦ incomplete
            | some failure ↦
                get_or
                  (first_return (failure_guards event outcome snapshot task_id subtask failure))
                  (recover_failure event outcome snapshot task_id attempt_id subtask failure)
          ]
        ]
      ]

  unfoldable pub decide_outcome : Event → ExecutionOutcome → Dispatch → Decision
  unfolding decision decide_failure decide_dispatch
  decide_outcome event outcome snapshot = elim (present event.task_id) [
    | none ↦ decision event (block_work "" event.subtask_id) "outcome has no Task"
    | some task_id ↦ elim outcome.terminal_kind [
      | failed ↦ decide_failure event outcome snapshot task_id
      | TerminalKind.completed ↦ decide_dispatch host event snapshot
    ]
  ]
