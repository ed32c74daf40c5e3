-- ===== src/Kernel/Availability.antt =====
-- `deriveAgentAvailability` of src/kernel/agent-availability.ts. `none` is a thrown error.
pub mod Breaker
use metaclaw.Base.{
  ℕ, ◌-◌, ◌*◌, Bool, true, false, ◌||◌, ◌&&◌, if◌then◌else◌, not, Option, none, some, String, List,
  [], ◌∷◌, length, ltb,
}
use metaclaw.Host.{Host}
use metaclaw.Kernel.Failure.{KernelFailure, FailureKind, network, timeout, infrastructure}
use metaclaw.Kernel.Status.{
  AgentClassHealth, error, disabled, Outcome, failed, RecentExecutionAttempt, StatusProjection,
  is_class_scope,
}

pub data Availability : Type 0 where
  available permanently_unavailable temporarily_unavailable probe_eligible : Availability

pub record AvailabilityPolicy : Type 0 where
  pub failure_window_ms : ℕ
  pub consecutive_failure_threshold : ℕ
  pub cooldown_ms : ℕ

abbrev pub default_policy : AvailabilityPolicy
default_policy = record {
  failure_window_ms = 10 * 60000;
  consecutive_failure_threshold = 3;
  cooldown_ms = 5 * 60000;
}

-- `TRANSIENT_CLASS_FAILURES.has`
abbrev pub is_transient : FailureKind → Bool
is_transient network = true
is_transient timeout = true
is_transient infrastructure = true
is_transient _ = false

abbrev pub is_failed : Outcome → Bool
is_failed failed = true
is_failed _ = false

unfoldable pub is_transient_class_failure : RecentExecutionAttempt → Bool
is_transient_class_failure a = elim a.failure [
  | none ↦ false
  | some f ↦ is_failed a.outcome && is_class_scope f.scope && is_transient f.kind
]

-- `classHealth === 'disabled' || classHealth === 'error'`
abbrev pub is_out : AgentClassHealth → Bool
is_out disabled = true
is_out error = true
is_out _ = false

module _ (host : Host) where
  -- The tests of the loop: a transient failure whose time is known, not in the future and within
  -- the window.
  unfoldable pub counts : ℕ → ℕ → RecentExecutionAttempt → Bool
  unfolding is_transient_class_failure
  counts window now a = is_transient_class_failure a && elim (host.parse_date a.completed_at) [
    | none ↦ false
    | some completed_at ↦ not (ltb now completed_at || ltb window (now - completed_at))
  ]

  -- The loop, with its `break`s.
  unfoldable pub consecutive : ℕ → ℕ → List RecentExecutionAttempt → List RecentExecutionAttempt
  unfolding counts
  consecutive window now [] = []
  consecutive window now (a ∷ rest) =
      if counts window now a then a ∷ consecutive window now rest else []

  -- `consecutive[0].completedAt` throws for an empty list, which a threshold of 0 lets through.
  unfoldable pub judge : AvailabilityPolicy → ℕ → List RecentExecutionAttempt → Option Availability
  judge policy now failures =
      if ltb (length failures) policy.consecutive_failure_threshold
      then some available
      else elim failures [
        | [] ↦ none
        | latest ∷ _ ↦ elim (host.parse_date latest.completed_at) [
          | none ↦ some probe_eligible
          | some at ↦ some (
              if ltb (now - at) policy.cooldown_ms then temporarily_unavailable else probe_eligible)
        ]
      ]

  unfoldable pub derive_agent_availability :
      Option StatusProjection → String → AvailabilityPolicy → Option Availability
  unfolding consecutive judge
  derive_agent_availability none occurred_at policy = some available
  derive_agent_availability (some projection) occurred_at policy =
      if is_out projection.class_health
      then some permanently_unavailable
      else elim (host.parse_date occurred_at) [
        | none ↦ some available
        | some now ↦
            judge policy now (consecutive policy.failure_window_ms now projection.recent_attempts)
      ]
