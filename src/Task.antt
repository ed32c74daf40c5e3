-- ===== src/Task.antt =====
-- Tasks: `Task` of src/core/types.ts with the records in it.
pub mod Result
pub mod Repo
pub mod Engine
pub mod Runtime
use metaclaw.Base.{ℕ, Bool, true, false, Option, none, String, List, any}
use metaclaw.Kernel.Model.{TaskStatus}

pub data TaskSource : Type 0 where
  user system_smoke : TaskSource

pub record TaskSnapshot : Type 0 where
  pub done : List String
  pub pending : List String
  pub next_step : String
  pub pause_reason : String
  pub created_at : String

pub data SemanticPriority : Type 0 where
  normal high urgent : SemanticPriority

-- The ratio is counted in millionths.
pub record PrioritySignals : Type 0 where
  pub due_at : Option String
  pub is_ready : Bool
  pub progress_ratio : ℕ
  pub blocks_others : Bool
  pub idle_hours : ℕ
  pub semantic_priority : Option SemanticPriority
  pub semantic_priority_reason : Option String

pub data DependencyType : Type 0 where
  manual kernel_capacity kernel_retry kernel_availability : DependencyType

pub data DependencyStatus : Type 0 where
  waiting resolved : DependencyStatus

pub record TaskDependency : Type 0 where
  pub task_id : String
  pub type : DependencyType
  pub description : String
  pub status : DependencyStatus
  pub created_at : String

pub record Task : Type 0 where
  pub id : String
  pub project_id : String
  pub title : String
  pub goal : String
  pub source : TaskSource
  pub smoke_run_id : Option String
  pub status : TaskStatus
  pub summary : String
  pub snapshots : List TaskSnapshot
  pub resources : List String
  pub artifacts : List String
  pub dependencies : List TaskDependency
  pub priority_signals : PrioritySignals
  pub injected_preferences : List String
  pub last_scheduling_reason : String
  pub last_interruption_reason : String
  pub interruption_count : ℕ
  pub created_at : String
  pub updated_at : String

-- `Partial<Task>`, with the fields that an update may write.
pub record Changes : Type 0 where
  pub title : Option String
  pub goal : Option String
  pub source : Option TaskSource
  pub smoke_run_id : Option (Option String)
  pub status : Option TaskStatus
  pub summary : Option String
  pub snapshots : Option (List TaskSnapshot)
  pub resources : Option (List String)
  pub artifacts : Option (List String)
  pub dependencies : Option (List TaskDependency)
  pub priority_signals : Option PrioritySignals
  pub injected_preferences : Option (List String)
  pub last_scheduling_reason : Option String
  pub last_interruption_reason : Option String
  pub interruption_count : Option ℕ

abbrev pub no_changes : Changes
no_changes = record {
  title = none;
  goal = none;
  source = none;
  smoke_run_id = none;
  status = none;
  summary = none;
  snapshots = none;
  resources = none;
  artifacts = none;
  dependencies = none;
  priority_signals = none;
  injected_preferences = none;
  last_scheduling_reason = none;
  last_interruption_reason = none;
  interruption_count = none;
}

abbrev pub same_status : TaskStatus → TaskStatus → Bool
same_status TaskStatus.created TaskStatus.created = true
same_status TaskStatus.ready TaskStatus.ready = true
same_status TaskStatus.running TaskStatus.running = true
same_status TaskStatus.parked TaskStatus.parked = true
same_status TaskStatus.blocked TaskStatus.blocked = true
same_status TaskStatus.done TaskStatus.done = true
same_status TaskStatus.archived TaskStatus.archived = true
same_status TaskStatus.cancelled TaskStatus.cancelled = true
same_status _ _ = false

abbrev pub one_of : List TaskStatus → TaskStatus → Bool
one_of statuses s = any (same_status s) statuses
