-- ===== src/Scenarios/TaskRuns.antt =====
-- Runs of the engine of tasks.
use metaclaw.Base.{trim, ℕ, show_nat, text_length, ◌≡◌, refl, some, none, Option, String, [], ◌∷◌}
use metaclaw.Kernel.Model.{TaskStatus}
use metaclaw.Task.{Task, manual, waiting}
use metaclaw.Task.Result.{ok}
use metaclaw.Task.Repo.{State, find_by_id}
use metaclaw.Task.Engine.{
  CreateInput, SnapshotInput, DependencyInput, new_task, create, park, resume,
}
use metaclaw.Task.Engine.Lifecycle.{status_of, Lawful}
use metaclaw.Task.Engine.History.{
  creates, here, next, Step-Lawful, StaysFinished, Reach-StaysFinished,
}
use metaclaw.Task.Engine.Resuming.{remembered, resume-park}
use metaclaw.Task.Runtime.{plan_task_execution}
use metaclaw.Task.Runtime.Planning.{PlanOf, plan_task_execution-PlanOf}

abbrev at : ℕ → String
at = show_nat

abbrev input : CreateInput
input = record {
  id = some "t1";
  project_id = none;
  title = "Report";
  goal = "Write the report";
  resources = none;
  source = none;
  smoke_run_id = none;
}

abbrev nothing : State
nothing = record { tasks = []; indexed = []; files = [] }

abbrev running_task : Task
running_task = record (new_task "t0" "1" input) { status = TaskStatus.running }

abbrev working : State
working = record { tasks = running_task ∷ []; indexed = []; files = [] }

abbrev notes : SnapshotInput
notes = record {
  done = "outline" ∷ [];
  pending = "text" ∷ [];
  next_step = "write the text";
  pause_reason = "a meeting";
}

found : find_by_id "t1" working ≡ some running_task
unfolding find_by_id new_task trim
found = refl

is_running : running_task.status ≡ TaskStatus.running
is_running = refl

resume-park_example :
    (s' : State) × (s'' : State) × (r : Option Task) × (t : Task) × (park at "t1" "" notes working
      ≡ ok (r, s'))
    × (resume at text_length "t1" s'
        ≡ ok ((some t, remembered (text_length (at 2)) running_task notes), s''))
    × (find_by_id "t1" s'' ≡ some t)
    × (t.status ≡ TaskStatus.ready)
resume-park_example =
    resume-park at at text_length "t1" "" notes working running_task found is_running

abbrev material : DependencyInput
material = record { task_id = "t1"; type = manual; description = "material"; status = waiting }

abbrev created_state : State
created_state = record {
  tasks = new_task "t0" "1" input ∷ [];
  indexed = new_task "t0" "1" input ∷ [];
  files = [];
}

create_run : create "t0" "1" input nothing ≡ ok (new_task "t0" "1" input, created_state)
unfolding create
create_run = refl

Step-Lawful_example : Lawful (status_of "t1" nothing) (status_of "t1" created_state)
Step-Lawful_example =
    Step-Lawful nothing created_state (creates "t0" "1" input (new_task "t0" "1" input) create_run)
      "t1"

abbrev cancelled_task : Task
cancelled_task = record running_task { status = TaskStatus.cancelled }

abbrev stopped : State
stopped = record { tasks = cancelled_task ∷ []; indexed = []; files = [] }

was_cancelled : status_of "t1" stopped ≡ some TaskStatus.cancelled
unfolding status_of new_task find_by_id trim
was_cancelled = refl

abbrev other : CreateInput
other = record input { id = some "t2" }

abbrev later_state : State
later_state = record {
  tasks = cancelled_task ∷ new_task "t0" "3" other ∷ [];
  indexed = new_task "t0" "3" other ∷ [];
  files = [];
}

other_run : create "t0" "3" other stopped ≡ ok (new_task "t0" "3" other, later_state)
unfolding create trim
other_run = refl

Reach-StaysFinished_example : StaysFinished TaskStatus.cancelled (status_of "t1" later_state)
Reach-StaysFinished_example =
    Reach-StaysFinished stopped later_state "t1" TaskStatus.cancelled
      (next here (creates "t0" "3" other (new_task "t0" "3" other) other_run)) was_cancelled refl

plan_task_execution-PlanOf_example :
    PlanOf cancelled_task (plan_task_execution cancelled_task "again")
plan_task_execution-PlanOf_example = plan_task_execution-PlanOf cancelled_task "again"
