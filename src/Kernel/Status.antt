-- ===== src/Kernel/Status.antt =====
-- src/kernel/executor-status-projection.ts: what is kept of the recent attempts of an AgentClass.
use metaclaw.Base.{
  Bool, true, false, ◌&&◌, if◌then◌else◌, Option, none, some, get_or, String, ◌==◌, List, [], ◌∷◌,
  any, take, same,
}
use metaclaw.Kernel.Failure.{
  KernelFailure, FailureKind, FailureScope, authentication, configuration, adapter, unknown,
  attempt, agent_class, kernel_failure,
}

pub data AgentClassHealth : Type 0 where
  unverified healthy error disabled : AgentClassHealth

pub data Outcome : Type 0 where
  succeeded failed : Outcome

pub record RecentExecutionAttempt : Type 0 where
  pub attempt_id : Option String
  pub completed_at : String
  pub outcome : Outcome
  pub failure : Option KernelFailure

pub data RecoveryTrigger : Type 0 where
  session_start planning_cycle task_recovery executor_changed manual : RecoveryTrigger

pub data RecoveryOutcome : Type 0 where
  recovered still_error probe_timeout : RecoveryOutcome

pub record RecentRecoveryCheck : Type 0 where
  pub check_id : String
  pub trigger : RecoveryTrigger
  pub started_at : String
  pub completed_at : String
  pub outcome : RecoveryOutcome
  pub failure : Option KernelFailure

pub record StatusProjection : Type 0 where
  pub agent_class_name : String
  pub class_health : AgentClassHealth
  pub recent_attempts : List RecentExecutionAttempt
  pub recent_recovery_checks : List RecentRecoveryCheck
  pub updated_at : String

pub record OutcomeInput : Type 0 where
  pub agent_class_name : String
  pub attempt_id : String
  pub outcome : Outcome
  pub completed_at : String
  pub failure : Option KernelFailure

abbrev pub is_class_scope : FailureScope → Bool
is_class_scope agent_class = true
is_class_scope _ = false

-- `['authentication', 'configuration', 'adapter'].includes`
abbrev pub is_class_fault : FailureKind → Bool
is_class_fault authentication = true
is_class_fault configuration = true
is_class_fault adapter = true
is_class_fault _ = false

abbrev unknown_failure : KernelFailure
unknown_failure = record {
  kind = unknown;
  scope = attempt;
  code = "unknown";
  summary = "unknown executor failure";
}

-- The failure that is recorded with an outcome.
unfoldable pub recorded_failure : OutcomeInput → Option KernelFailure
unfolding kernel_failure
recorded_failure input = elim input.outcome [
  | succeeded ↦ none
  | failed ↦ some (kernel_failure (get_or input.failure unknown_failure))
]

unfoldable pub next_health : Option AgentClassHealth → Outcome → Bool → AgentClassHealth
next_health (some disabled) outcome permanent = disabled
next_health current succeeded permanent = healthy
next_health current failed true = error
next_health current failed false = get_or current unverified

abbrev pub is_permanent : Option KernelFailure → Bool
is_permanent none = false
is_permanent (some f) = is_class_scope f.scope && is_class_fault f.kind

-- The projection after an outcome that is not known yet.
unfoldable pub add_outcome : Option StatusProjection → OutcomeInput → StatusProjection
unfolding recorded_failure next_health
add_outcome current input =
    let failure = recorded_failure input in
    let new_attempt : RecentExecutionAttempt = record {
      attempt_id = some input.attempt_id;
      completed_at = input.completed_at;
      outcome = input.outcome;
      failure = failure;
    } in
    record {
      agent_class_name = input.agent_class_name;
      class_health =
          next_health (elim current [ none ↦ none | some c ↦ some c.class_health ]) input.outcome
            (is_permanent failure);
      recent_attempts =
          take 10 (new_attempt ∷ elim current [ none ↦ [] | some c ↦ c.recent_attempts ]);
      recent_recovery_checks = elim current [ none ↦ [] | some c ↦ c.recent_recovery_checks ];
      updated_at = input.completed_at;
    }

-- `projectExecutionOutcome`
unfoldable pub project_execution_outcome : Option StatusProjection → OutcomeInput → StatusProjection
unfolding add_outcome
project_execution_outcome none input = add_outcome none input
project_execution_outcome (some current) input =
    if any (λ a. same a.attempt_id (some input.attempt_id)) current.recent_attempts
    then current
    else add_outcome (some current) input

abbrev pub recovers : AgentClassHealth → RecoveryOutcome → AgentClassHealth
recovers error recovered = healthy
recovers health outcome = health

-- `projectRecoveryCheck`
unfoldable pub project_recovery_check : StatusProjection → RecentRecoveryCheck → StatusProjection
unfolding kernel_failure
project_recovery_check current input =
    if any (λ c. c.check_id == input.check_id) current.recent_recovery_checks
    then current
    else let check = record input {
      failure = elim input.failure [ none ↦ none | some f ↦ some (kernel_failure f) ];
    } in
      record current {
        class_health = recovers current.class_health input.outcome;
        recent_recovery_checks = take 10 (check ∷ current.recent_recovery_checks);
        updated_at = input.completed_at;
      }
