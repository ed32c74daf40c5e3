-- ===== src/Kernel/Availability/Breaker.antt =====
-- How the recorded outcomes open and close the availability of an AgentClass.
use metaclaw.Base.{
  inl, inr, ℕ, ◌≤◌, ◌<◌, ◌-◌, ◌≡◌, ◌≢◌, refl, Bool, true, false, Bool-cases, Option, none, some,
  Option-cases, String, List, [], ◌∷◌, any, same, eq_refl, length, length-take-le, arith,
}
use metaclaw.Host.{Host}
use metaclaw.Kernel.Status.{
  disabled, succeeded, RecentExecutionAttempt, StatusProjection, OutcomeInput, RecentRecoveryCheck,
  add_outcome, project_execution_outcome, project_recovery_check,
}
use metaclaw.Kernel.Availability.{
  Availability, available, temporarily_unavailable, AvailabilityPolicy, default_policy,
  is_transient_class_failure, counts, consecutive, judge, derive_agent_availability,
}

abbrev pub Bounded : StatusProjection → Type 0
Bounded c = (length c.recent_attempts ≤ 10) × (length c.recent_recovery_checks ≤ 10)

abbrev pub OptionBounded : Option StatusProjection → Type 0
OptionBounded none = Unit
OptionBounded (some c) = Bounded c

abbrev pub is_known : Option StatusProjection → OutcomeInput → Bool
is_known none input = false
is_known (some c) input = any (λ a. same a.attempt_id (some input.attempt_id)) c.recent_attempts

abbrev pub IsDisabled : Option StatusProjection → Type 0
IsDisabled none = ⊥
IsDisabled (some c) = c.class_health ≡ disabled

checks-Bounded :
    (c : StatusProjection) (check : RecentRecoveryCheck)
    → Bounded c
    → Bounded (project_recovery_check c check)
unfolding project_recovery_check
checks-Bounded c check b = ground (arith, length-take-le 9 c.recent_recovery_checks)

add_outcome-Bounded :
    (c : StatusProjection) (input : OutcomeInput) → Bounded c → Bounded (add_outcome (some c) input)
unfolding add_outcome
add_outcome-Bounded c input b = (omega (arith, length-take-le 9 c.recent_attempts), b.1)

outcome-Bounded :
    (current : Option StatusProjection) (input : OutcomeInput)
    → OptionBounded current
    → Bounded (project_execution_outcome current input)
unfolding project_execution_outcome
outcome-Bounded none input b = omega arith
outcome-Bounded (some c) input b = elim (Bool-cases (is_known (some c) input)) [
  | inl e ↦ rw e b
  | inr e ↦ rw e (add_outcome-Bounded c input b)
]

-- An outcome and then a recovery check leave at most ten recent attempts and ten recovery checks,
-- if there were no more before.
pub project-Bounded :
    (current : Option StatusProjection) (input : OutcomeInput) (check : RecentRecoveryCheck)
    → OptionBounded current
    → Bounded (project_recovery_check (project_execution_outcome current input) check)
project-Bounded current input check b =
    checks-Bounded (project_execution_outcome current input) check (outcome-Bounded current input b)

add_outcome-is_known :
    (current : Option StatusProjection) (input : OutcomeInput)
    → is_known (some (add_outcome current input)) input ≡ true
unfolding add_outcome
add_outcome-is_known none input = rw (eq_refl input.attempt_id)
add_outcome-is_known (some c) input = rw (eq_refl input.attempt_id)

project-is_known :
    (current : Option StatusProjection) (input : OutcomeInput)
    → is_known (some (project_execution_outcome current input)) input ≡ true
unfolding project_execution_outcome
project-is_known none input = add_outcome-is_known none input
project-is_known (some c) input = elim (Bool-cases (is_known (some c) input)) [
  | inl e ↦ rw e e
  | inr e ↦ rw e (add_outcome-is_known (some c) input)
]

is_known-same :
    (c : StatusProjection) (input : OutcomeInput)
    → is_known (some c) input ≡ true
    → project_execution_outcome (some c) input ≡ c
unfolding project_execution_outcome
is_known-same c input h = rw h

-- To record the outcome of the same attempt again changes nothing.
pub project_execution_outcome_idem :
    (current : Option StatusProjection) (input : OutcomeInput)
    → project_execution_outcome (some (project_execution_outcome current input)) input
      ≡ project_execution_outcome current input
project_execution_outcome_idem current input =
    is_known-same (project_execution_outcome current input) input (project-is_known current input)

module _ (host : Host) where
  -- A new success recorded for an AgentClass that is not disabled makes it available, at any time
  -- and whatever failed before, if the threshold is positive.
  pub success-available :
      (current : Option StatusProjection) (input : OutcomeInput) (now : String)
      (policy : AvailabilityPolicy)
      → input.outcome ≡ succeeded
      → is_known current input ≡ false
      → ¬ IsDisabled current
      → 0 < policy.consecutive_failure_threshold
      → derive_agent_availability host (some (project_execution_outcome current input)) now policy
        ≡ some available
  unfolding project_execution_outcome derive_agent_availability
  success-available none input now policy ok fresh on positive = ground arith
  success-available (some c) input now policy ok fresh on positive = ground arith

  -- An attempt that the loop counts, seen at `now`.
  abbrev pub Counted : ℕ → RecentExecutionAttempt → Type 0
  Counted now a =
      (is_transient_class_failure a ≡ true)
      × ((at : ℕ) × (host.parse_date a.completed_at ≡ some at) × (at ≤ now) × (now - at ≤ 600000))

  counts-Counted :
      (now : ℕ) (a : RecentExecutionAttempt) → counts host 600000 now a ≡ true → Counted now a
  unfolding counts
  counts-Counted now a h = elim (Option-cases (host.parse_date a.completed_at)) [
    | inl e ↦ absurd (ground arith)
    | inr (at, e) ↦ (ground arith, (at, e, ground arith, ground arith))
  ]

  three-Counted :
      (now : ℕ) (attempts : List RecentExecutionAttempt)
      → 3 ≤ length (consecutive host 600000 now attempts)
      → (a b c : RecentExecutionAttempt) × (rest : List RecentExecutionAttempt) × (attempts
          ≡ a ∷ b ∷ c ∷ rest)
        × Counted now a
        × Counted now b
        × Counted now c
  unfolding consecutive
  three-Counted now [] h = absurd (omega arith)
  three-Counted now (a ∷ []) h = absurd (ground arith)
  three-Counted now (a ∷ b ∷ []) h = absurd (ground arith)
  three-Counted now (a ∷ b ∷ c ∷ rest) h = (
    a,
    b,
    c,
    rest,
    refl,
    counts-Counted now a (ground arith),
    counts-Counted now b (ground arith),
    counts-Counted now c (ground arith),
  )

  judge-returns :
      (now : ℕ) (failures : List RecentExecutionAttempt)
      → judge host default_policy now failures ≢ none
  unfolding judge
  judge-returns now [] h = absurd (ground arith)
  judge-returns now (a ∷ rest) h = absurd (ground arith)

  -- With the default policy nothing is thrown.
  derive-returns :
      (current : Option StatusProjection) (occurred_at : String)
      → (a : Availability) × (derive_agent_availability host current occurred_at default_policy
          ≡ some a)
  unfolding derive_agent_availability
  derive-returns none occurred_at = (available, refl)
  derive-returns (some p) occurred_at =
      elim (Option-cases (derive_agent_availability host (some p) occurred_at default_policy)) [
        | inr returned ↦ returned
        | inl e ↦ elim (Option-cases (host.parse_date occurred_at)) [
          | inl unknown ↦ absurd (ground arith)
          | inr (now, known) ↦
              absurd
                (judge-returns now (consecutive host 600000 now p.recent_attempts) (ground arith))
        ]
      ]

  judge-three :
      (now : ℕ) (failures : List RecentExecutionAttempt)
      → judge host default_policy now failures ≡ some temporarily_unavailable
      → 3 ≤ length failures
  unfolding judge
  judge-three now failures h = ground arith

  -- With the default policy and a known time, an AgentClass is temporarily unavailable only if
  -- its three latest attempts are class failures of a transient kind, none in the future and each
  -- within ten minutes.
  pub temporarily_unavailable-three :
      (projection : StatusProjection) (occurred_at : String) (now : ℕ)
      → host.parse_date occurred_at ≡ some now
      → derive_agent_availability host (some projection) occurred_at default_policy
        ≡ some temporarily_unavailable
      → (a b c : RecentExecutionAttempt) × (rest : List RecentExecutionAttempt)
        × (projection.recent_attempts ≡ a ∷ b ∷ c ∷ rest)
        × Counted now a
        × Counted now b
        × Counted now c
  unfolding derive_agent_availability
  temporarily_unavailable-three projection occurred_at now e h =
      three-Counted now projection.recent_attempts
        (judge-three now (consecutive host 600000 now projection.recent_attempts) (ground arith))
