-- ===== src/Task/Runtime/Clearing.antt =====
-- `clearTasks` never throws, and cancels the tasks of its scope and no others.
use metaclaw.Base.{false, some, String, List, map, In, Distinct, ◌≡◌}
use metaclaw.Kernel.Model.{TaskStatus}
use metaclaw.Task.{Task, no_changes}
use metaclaw.Task.Repo.{State, find_by_id, update}
use metaclaw.Task.Engine.Lifecycle.{status_of, is_finished}

-- The ids are the primary key.
abbrev pub DistinctIds : State → Type 0
DistinctIds s = Distinct (map (λ t. t.id) s.tasks)

-- Tasks that are found as they are and not finished.
abbrev Open : List Task → State → Type 0
Open ts s = (t : Task) → In t ts → (find_by_id t.id s ≡ some t) × (is_finished t.status ≡ false)

-- The cancelled tasks, and the others.
pub record Cleared (ts : List Task) (s s' : State) : Type 0 where
  pub all_cancelled : (t : Task) → In t ts → status_of t.id s' ≡ some TaskStatus.cancelled
  pub others : (id : String) → ¬ In id (map (λ t. t.id) ts) → find_by_id id s' ≡ find_by_id id s

module _ (now reason : String) where
  abbrev after_cancel : String → State → State
  after_cancel id = update now id (record no_changes {
    status = some TaskStatus.cancelled;
    last_interruption_reason = some reason;
  })
