-- ===== src/Task/Engine.antt =====
-- `TaskEngine` of src/task/task-engine.ts. `at` gives the times that the clock shows when the
-- operation reads it, in order. A returned task is looked up again, as the source does.
pub mod Lifecycle
pub mod Moves
pub mod History
pub mod Resuming
use metaclaw.Base.{
  ℕ, Bool, true, false, not, if◌then◌else◌, Option, none, some, get_or, is_empty, trim, truthy,
  String, ◌⧺◌, List, [], ◌∷◌, ◌++◌, map, join, unique,
}
use metaclaw.Kernel.Model.{TaskStatus}
use metaclaw.Task.{
  Task, TaskSource, user, TaskSnapshot, TaskDependency, DependencyType, DependencyStatus, waiting,
  resolved, no_changes, same_status, one_of,
}
use metaclaw.Task.Result.{
  Result, ok, err, ◌>>=◌, ◌>>◌, guard, or_fail, task_exists, task_not_found, illegal_transition,
  cannot_cancel, cannot_park, cannot_resume, cannot_block, cannot_unblock,
}
use metaclaw.Task.Repo.{
  State, find_by_id, update, update_status, append_snapshot, insert_task, find_all,
}

-- `VALID_TRANSITIONS`
abbrev pub valid_transitions : TaskStatus → List TaskStatus
valid_transitions TaskStatus.created =
    TaskStatus.ready ∷ TaskStatus.parked ∷ TaskStatus.cancelled ∷ []
valid_transitions TaskStatus.ready =
    TaskStatus.running ∷ TaskStatus.parked ∷ TaskStatus.cancelled ∷ []
valid_transitions TaskStatus.running = TaskStatus.parked ∷ TaskStatus.blocked ∷ TaskStatus.done ∷ []
valid_transitions TaskStatus.parked = TaskStatus.ready ∷ TaskStatus.cancelled ∷ []
valid_transitions TaskStatus.blocked = TaskStatus.ready ∷ TaskStatus.parked ∷ TaskStatus.done ∷ []
valid_transitions TaskStatus.done = TaskStatus.archived ∷ []
valid_transitions TaskStatus.archived = []
valid_transitions TaskStatus.cancelled = []

pub record CreateInput : Type 0 where
  pub id : Option String
  pub project_id : Option String
  pub title : String
  pub goal : String
  pub resources : Option (List String)
  pub source : Option TaskSource
  pub smoke_run_id : Option String

-- The parts of a snapshot and of a dependency that the caller gives.
pub record SnapshotInput : Type 0 where
  pub done : List String
  pub pending : List String
  pub next_step : String
  pub pause_reason : String

pub record DependencyInput : Type 0 where
  pub task_id : String
  pub type : DependencyType
  pub description : String
  pub status : DependencyStatus

pub record ResumeSummary : Type 0 where
  pub task_title : String
  pub last_progress : String
  pub pause_reason : String
  pub current_status : String
  pub next_step : String
  pub resources : List String
  pub idle_hours : ℕ

-- `generated` is the result of `generateTaskId`, used where no id is given.
abbrev pub chosen_id : String → Option String → String
chosen_id generated none = generated
chosen_id generated (some id) = if is_empty (trim id) then generated else id

unfoldable pub new_task : String → String → CreateInput → Task
new_task generated now input = record {
  id = chosen_id generated input.id;
  project_id = get_or input.project_id "project_default";
  title = input.title;
  goal = input.goal;
  source = get_or input.source user;
  smoke_run_id = input.smoke_run_id;
  status = TaskStatus.created;
  summary = "";
  snapshots = [];
  resources = get_or input.resources [];
  artifacts = [];
  dependencies = [];
  priority_signals = record {
    due_at = none;
    is_ready = true;
    progress_ratio = 0;
    blocks_others = false;
    idle_hours = 0;
    semantic_priority = none;
    semantic_priority_reason = none;
  };
  injected_preferences = [];
  last_scheduling_reason = "";
  last_interruption_reason = "";
  interruption_count = 0;
  created_at = now;
  updated_at = now;
}

unfoldable pub create : String → String → CreateInput → State → Result (Task × State)
unfolding new_task insert_task
create generated now input s =
    let task = new_task generated now input in
    or_fail (insert_task task s) (task_exists task.id) >>= λ s'. ok (task, s')

-- `findById(taskId)` behind the change.
abbrev pub reload : String → State → Result (Option Task × State)
reload id s = ok (find_by_id id s, s)

unfoldable pub transition :
    (ℕ → String) → String → TaskStatus → State → Result (Option Task × State)
unfolding find_by_id update_status
transition at id target s = do
  task ← or_fail (find_by_id id s) (task_not_found id)
  guard (one_of (valid_transitions task.status) target) (illegal_transition task.status target)
  reload id (update_status (at 0) id target s)

unfoldable pub cancel : (ℕ → String) → String → String → State → Result (Option Task × State)
unfolding find_by_id update
cancel at id reason s = do
  task ← or_fail (find_by_id id s) (task_not_found id)
  guard
      (not (one_of (TaskStatus.done ∷ TaskStatus.archived ∷ TaskStatus.cancelled ∷ []) task.status))
      (cannot_cancel task.status)
  reload id (
      update (at 0) id
        (record no_changes {
          status = some TaskStatus.cancelled;
          last_interruption_reason = some reason;
        })
        s)

-- `saveSnapshot`
save_snapshot : String → TaskSnapshot → State → State
save_snapshot id snapshot s = record s { files = s.files ++ (id, snapshot) ∷ [] }

abbrev pub full_snapshot : String → SnapshotInput → TaskSnapshot
full_snapshot now snapshot = record {
  done = snapshot.done;
  pending = snapshot.pending;
  next_step = snapshot.next_step;
  pause_reason = snapshot.pause_reason;
  created_at = now;
}

abbrev pub full_dependency : String → DependencyInput → TaskDependency
full_dependency now dependency = record {
  task_id = dependency.task_id;
  type = dependency.type;
  description = dependency.description;
  status = dependency.status;
  created_at = now;
}

-- The argument `reason` is not used.
unfoldable pub park :
    (ℕ → String) → String → String → SnapshotInput → State → Result (Option Task × State)
unfolding find_by_id save_snapshot append_snapshot update_status
park at id reason snapshot s = do
  task ← or_fail (find_by_id id s) (task_not_found id)
  guard (same_status task.status TaskStatus.running) (cannot_park task.status)
  let full = full_snapshot (at 0) snapshot
  s' ← or_fail (append_snapshot (at 1) id full (save_snapshot id full s)) (task_not_found id)
  reload id (update_status (at 2) id TaskStatus.parked s')

abbrev pub last? : List TaskSnapshot → Option TaskSnapshot
last? [] = none
last? (x ∷ []) = some x
last? (x ∷ y ∷ ys) = last? (y ∷ ys)

unfoldable pub get_latest_snapshot : String → State → Option TaskSnapshot
unfolding find_by_id
get_latest_snapshot id s = elim (find_by_id id s) [ none ↦ none | some task ↦ last? task.snapshots ]

-- `text || fallback`
abbrev pub or_text : Option String → String → String
or_text text fallback = if truthy text then get_or text "" else fallback

abbrev pub summary_of : ℕ → Task → Option TaskSnapshot → ResumeSummary
summary_of idle_hours task latest = record {
  task_title = task.title;
  last_progress = or_text (elim latest [ none ↦ none | some l ↦ some (join "; " l.done) ]) "尚未开始";
  pause_reason = or_text (elim latest [ none ↦ none | some l ↦ some l.pause_reason ]) "未知";
  current_status = "已恢复，可以继续";
  next_step = or_text (elim latest [ none ↦ none | some l ↦ some l.next_step ]) "继续推进任务";
  resources = task.resources;
  idle_hours = idle_hours;
}

-- `hours_since` gives the hours from a time to now, as dayjs counts them.
unfoldable pub resume :
    (ℕ → String) → (String → ℕ) → String → State → Result ((Option Task × ResumeSummary) × State)
unfolding find_by_id get_latest_snapshot update_status
resume at hours_since id s = do
  task ← or_fail (find_by_id id s) (task_not_found id)
  guard (same_status task.status TaskStatus.parked) (cannot_resume task.status)
  let summary = summary_of (hours_since task.updated_at) task (get_latest_snapshot id s)
  let s' = update_status (at 0) id TaskStatus.ready s
  ok ((find_by_id id s', summary), s')

unfoldable pub block :
    (ℕ → String) → String → DependencyInput → State → Result (Option Task × State)
unfolding find_by_id update update_status
block at id dependency s = do
  task ← or_fail (find_by_id id s) (task_not_found id)
  guard (same_status task.status TaskStatus.running) (cannot_block task.status)
  let full = full_dependency (at 0) dependency
  let s' =
      update (at 1) id (record no_changes { dependencies = some (task.dependencies ++ full ∷ []) })
        s
  reload id (update_status (at 2) id TaskStatus.blocked s')

abbrev pub resolve : TaskDependency → TaskDependency
resolve d = record d { status = resolved }

unfoldable pub unblock : (ℕ → String) → String → State → Result (Option Task × State)
unfolding find_by_id update update_status
unblock at id s = do
  task ← or_fail (find_by_id id s) (task_not_found id)
  guard (same_status task.status TaskStatus.blocked) (cannot_unblock task.status)
  let s' =
      update (at 0) id (record no_changes { dependencies = some (map resolve task.dependencies) }) s
  reload id (update_status (at 1) id TaskStatus.ready s')

unfoldable pub attach_resource :
    (ℕ → String) → String → String → State → Result (Option Task × State)
unfolding find_by_id update unique
attach_resource at id path s = do
  task ← or_fail (find_by_id id s) (task_not_found id)
  reload id (
      update (at 0) id
        (record no_changes { resources = some (unique (task.resources ++ path ∷ [])) }) s)
