-- ===== src/Scenarios/ExecutorRuns.antt =====
-- Runs of the executor status and of the routing check.
use metaclaw.Base.{
  text_length, set, ◌≡◌, refl, inl, false, none, some, String, List, [], ◌∷◌, arith,
}
use metaclaw.Kernel.Failure.{KernelFailure, network, agent_class}
use metaclaw.Kernel.Status.{
  StatusProjection, OutcomeInput, RecentExecutionAttempt, RecentRecoveryCheck, healthy, succeeded,
  failed, manual, recovered, project_execution_outcome, project_recovery_check,
}
use metaclaw.Kernel.Availability.{
  available, temporarily_unavailable, derive_agent_availability, default_policy,
}
use metaclaw.Kernel.Availability.Breaker.{
  Bounded, OptionBounded, is_known, IsDisabled, Counted, project-Bounded,
  project_execution_outcome_idem, success-available, temporarily_unavailable-three,
}
use metaclaw.Kernel.Snapshot.{ExecutorCatalog}
use metaclaw.Planning.Routing.{routing_errors}
use metaclaw.Planning.Routing.Exact.{IsExact, routing_errors-IsExact}
use metaclaw.Scenarios.{host, subtask}

abbrev failure : KernelFailure
failure = record {
  kind = network;
  scope = agent_class;
  code = "reset";
  summary = "connection reset";
}

abbrev attempt : String → RecentExecutionAttempt
attempt id = record {
  attempt_id = some id;
  completed_at = "t";
  outcome = failed;
  failure = some failure;
}

abbrev projection : StatusProjection
projection = record {
  agent_class_name = "codex";
  class_health = healthy;
  recent_attempts = attempt "x3" ∷ attempt "x2" ∷ attempt "x1" ∷ [];
  recent_recovery_checks = [];
  updated_at = "t";
}

abbrev success : OutcomeInput
success = record {
  agent_class_name = "codex";
  attempt_id = "x4";
  outcome = succeeded;
  completed_at = "tt";
  failure = none;
}

abbrev check : RecentRecoveryCheck
check = record {
  check_id = "k1";
  trigger = manual;
  started_at = "t";
  completed_at = "tt";
  outcome = recovered;
  failure = none;
}

bounded : OptionBounded (some projection)
bounded = (omega arith, omega arith)

project-Bounded_example :
    Bounded (project_recovery_check (project_execution_outcome (some projection) success) check)
project-Bounded_example = project-Bounded (some projection) success check bounded

project_execution_outcome_idem_example :
    project_execution_outcome (some (project_execution_outcome (some projection) success)) success
    ≡ project_execution_outcome (some projection) success
project_execution_outcome_idem_example = project_execution_outcome_idem (some projection) success

is_fresh : is_known (some projection) success ≡ false
is_fresh = refl

is_enabled : ¬ IsDisabled (some projection)
is_enabled h = cc

success-available_example :
    derive_agent_availability host
      (some (project_execution_outcome (some projection) success))
      "now"
      default_policy
    ≡ some available
success-available_example =
    success-available host (some projection) success "now" default_policy refl is_fresh is_enabled
      (omega arith)

breaker_run :
    derive_agent_availability host (some projection) "now" default_policy
    ≡ some temporarily_unavailable
unfolding derive_agent_availability text_length
breaker_run = refl

temporarily_unavailable-three_example :
    (a b c : RecentExecutionAttempt) × (rest : List RecentExecutionAttempt)
    × (projection.recent_attempts ≡ a ∷ b ∷ c ∷ rest)
    × Counted host 3 a
    × Counted host 3 b
    × Counted host 3 c
unfolding text_length
temporarily_unavailable-three_example =
    temporarily_unavailable-three host projection "now" 3 refl breaker_run

abbrev catalog : ExecutorCatalog
catalog = record {
  capabilities = "code" ∷ "web" ∷ [];
  executors =
      record { name = "codex"; routing_capabilities = "code" ∷ [] }
      ∷ record { name = "browser"; routing_capabilities = "web" ∷ [] }
      ∷ [];
}

routing_run : routing_errors catalog (subtask "a" [] "codex" ∷ []) ≡ []
unfolding routing_errors set
routing_run = refl

routing_errors-IsExact_example : IsExact catalog (subtask "a" [] "codex")
routing_errors-IsExact_example =
    routing_errors-IsExact catalog (subtask "a" [] "codex" ∷ []) (subtask "a" [] "codex")
      routing_run (inl refl)
