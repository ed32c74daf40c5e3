-- ===== src/Task/Runtime/Planning.antt =====
-- The transitions of an execution plan lead to a running task, along the table of the engine.
use metaclaw.Base.{true, List, [], ◌∷◌, String, ◌≡◌, refl}
use metaclaw.Kernel.Model.{TaskStatus}
use metaclaw.Task.{Task, one_of}
use metaclaw.Task.Engine.{valid_transitions}
use metaclaw.Task.Engine.Lifecycle.{is_finished}
use metaclaw.Task.Runtime.{
  ExecutionPlan, reuse_existing, fork_follow_up, blocked_plan, plan_for, plan_task_execution,
}

-- The statuses are those of the table, one behind the other.
abbrev pub Leads : TaskStatus → List TaskStatus → TaskStatus → Type 0
Leads a [] b = a ≡ b
Leads a (t ∷ ts) b = (one_of (valid_transitions a) t ≡ true) × Leads t ts b

abbrev pub PlanOf : Task → ExecutionPlan → Type 0
PlanOf task (reuse_existing execution context transitions) =
    (execution ≡ task.id) × (context ≡ task.id) × Leads task.status transitions TaskStatus.running
PlanOf task (fork_follow_up context transitions input) =
    (context ≡ task.id)
    × (input.resources ≡ task.resources)
    × (is_finished task.status ≡ true)
    × Leads TaskStatus.created transitions TaskStatus.running
PlanOf task (blocked_plan error) = task.status ≡ TaskStatus.blocked

plan_for-PlanOf :
    (a : TaskStatus) (task : Task) (prompt : String)
    → task.status ≡ a
    → PlanOf task (plan_for a task prompt)
unfolding plan_for
plan_for-PlanOf TaskStatus.created task prompt e = (refl, refl, rw e (refl, (refl, refl)))
plan_for-PlanOf TaskStatus.ready task prompt e = (refl, refl, rw e (refl, refl))
plan_for-PlanOf TaskStatus.parked task prompt e = (refl, refl, rw e (refl, (refl, refl)))
plan_for-PlanOf TaskStatus.running task prompt e = (refl, refl, e)
plan_for-PlanOf TaskStatus.blocked task prompt e = e
plan_for-PlanOf TaskStatus.done task prompt e = (refl, refl, rw e refl, (refl, (refl, refl)))
plan_for-PlanOf TaskStatus.archived task prompt e = (refl, refl, rw e refl, (refl, (refl, refl)))
plan_for-PlanOf TaskStatus.cancelled task prompt e = (refl, refl, rw e refl, (refl, (refl, refl)))

-- A plan that reuses a task names it, and its transitions lead from the status of the task to
-- running along the table of the engine; a plan that forks a follow-up is made only of a finished
-- task, keeps its resources, and its transitions lead so from created; a plan is refused only for
-- a blocked task.
pub plan_task_execution-PlanOf :
    (task : Task) (prompt : String) → PlanOf task (plan_task_execution task prompt)
unfolding plan_task_execution
plan_task_execution-PlanOf task prompt = plan_for-PlanOf task.status task prompt refl
