-- ===== src/Task/Runtime.antt =====
-- src/task/task-runtime-service.ts and src/task/task-execution-planner.ts. The service passes the
-- other calls on to the engine and the repository as they are.
pub mod Clearing
pub mod Planning
use metaclaw.Base.{
  ℕ, ◌+◌, Bool, true, false, if◌then◌else◌, Option, none, some, head?, any, is_some, String, ◌⧺◌,
  List, [], ◌∷◌, filter, slice_units,
}
use metaclaw.Kernel.Model.{TaskStatus}
use metaclaw.Task.{Task, Changes, same_status, one_of}
use metaclaw.Task.Result.{Result, ok, err, ◌>>=◌, or_fail, task_not_found, cannot_complete}
use metaclaw.Task.Repo.{State, find_by_id, update, find_all, find_by_status}
use metaclaw.Task.Engine.{transition, cancel}

-- `TaskClearScope`
pub data ClearScope : Type 0 where
  all parked blocked : ClearScope

abbrev pub clear_scope_statuses : ClearScope → List TaskStatus
clear_scope_statuses all =
    TaskStatus.created ∷ TaskStatus.ready ∷ TaskStatus.running ∷ TaskStatus.parked
    ∷ TaskStatus.blocked ∷ []
clear_scope_statuses parked = TaskStatus.parked ∷ []
clear_scope_statuses blocked = TaskStatus.blocked ∷ []

unfoldable pub update_task : String → String → Changes → State → Option Task × State
unfolding find_by_id update
update_task now id changes s = elim (find_by_id id s) [
  | none ↦ (none, s)
  | some task ↦ let s' = update now id changes s in (find_by_id id s', s')
]

-- The part of `completeTask` behind the transition of a ready task.
finish_task : (ℕ → String) → String → Option Task → State → Result (Option Task × State)
unfolding transition
finish_task at id none s = err (task_not_found id)
finish_task at id (some task) s =
    if one_of (TaskStatus.running ∷ TaskStatus.blocked ∷ []) task.status
    then transition (λ k. at (k + 1)) id TaskStatus.done s
    else err (cannot_complete task.status)

unfoldable pub complete_task : (ℕ → String) → String → State → Result (Option Task × State)
unfolding find_by_id transition finish_task
complete_task at id s = or_fail (find_by_id id s) (task_not_found id) >>= λ task.
    if same_status task.status TaskStatus.done
    then ok (some task, s)
    else if same_status task.status TaskStatus.ready
    then (transition at id TaskStatus.running s >>= λ moved. finish_task at id moved.0 moved.1)
    else finish_task at id (some task) s

unfoldable pub get_current_running_task : Bool → State → Option Task
unfolding find_by_status
get_current_running_task include_system_smoke s =
    head? (find_by_status TaskStatus.running include_system_smoke s)

-- The loop over the candidates; the call for the candidate `n` reads the clock `at n`.
unfoldable pub cancel_each : (ℕ → String) → ℕ → String → List Task → State → Result State
unfolding cancel
cancel_each at n reason [] s = ok s
cancel_each at n reason (t ∷ ts) s =
    cancel (λ k. at n) t.id reason s >>= λ done. cancel_each at (n + 1) reason ts done.1

abbrev pub candidates_of : Bool → ClearScope → State → List Task
candidates_of include_system_smoke scope s =
    filter (λ t. one_of (clear_scope_statuses scope) t.status) (find_all include_system_smoke s)

unfoldable pub clear_tasks :
    (ℕ → String) → Bool → ClearScope → String → State → Result ((List Task × Bool) × State)
unfolding find_all cancel_each
clear_tasks at include_system_smoke scope reason s =
    let candidates = candidates_of include_system_smoke scope s in
    let running = any (λ t. same_status t.status TaskStatus.running) candidates in
    cancel_each at 0 reason candidates s >>= λ s'. ok ((candidates, running), s')

pub record NewTaskInput : Type 0 where
  pub title : String
  pub goal : String
  pub resources : List String

pub data ExecutionPlan : Type 0 where
  reuse_existing :
      (execution_task_id context_task_id : String) (transitions : List TaskStatus) → ExecutionPlan
  fork_follow_up :
      (context_task_id : String) (transitions : List TaskStatus) (new_task_input : NewTaskInput)
      → ExecutionPlan
  blocked_plan : (error : String) → ExecutionPlan

fork_for : Task → String → ExecutionPlan
unfolding slice_units
fork_for task prompt =
    fork_follow_up task.id (TaskStatus.ready ∷ TaskStatus.running ∷ [])
      (record { title = slice_units 50 prompt; goal = prompt; resources = task.resources })

-- The cases of `switch (task.status)`.
plan_for : TaskStatus → Task → String → ExecutionPlan
unfolding fork_for
plan_for TaskStatus.created task prompt =
    reuse_existing task.id task.id (TaskStatus.ready ∷ TaskStatus.running ∷ [])
plan_for TaskStatus.ready task prompt = reuse_existing task.id task.id (TaskStatus.running ∷ [])
plan_for TaskStatus.parked task prompt =
    reuse_existing task.id task.id (TaskStatus.ready ∷ TaskStatus.running ∷ [])
plan_for TaskStatus.running task prompt = reuse_existing task.id task.id []
plan_for TaskStatus.blocked task prompt = blocked_plan "当前任务已阻塞，请先解除阻塞再继续。"
plan_for TaskStatus.done task prompt = fork_for task prompt
plan_for TaskStatus.archived task prompt = fork_for task prompt
plan_for TaskStatus.cancelled task prompt = fork_for task prompt

unfoldable pub plan_task_execution : Task → String → ExecutionPlan
unfolding plan_for
plan_task_execution task prompt = plan_for task.status task prompt
