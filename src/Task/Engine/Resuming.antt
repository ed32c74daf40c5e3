-- ===== src/Task/Engine/Resuming.antt =====
-- What a parked task remembers, and what a blocked one waits for.
use metaclaw.Base.{ℕ, Option, some, String, List, [], ◌∷◌, ◌++◌, join, ◌≡◌, refl, arith, eq_refl}
use metaclaw.Kernel.Model.{TaskStatus}
use metaclaw.Task.{Task, TaskSnapshot, Changes, no_changes}
use metaclaw.Task.Result.{ok}
use metaclaw.Task.Repo.{
  State, find_by_id, apply_changes, update, update_status, append_snapshot, find_by_id-update,
}
use metaclaw.Task.Engine.{
  SnapshotInput, ResumeSummary, save_snapshot, full_snapshot, get_latest_snapshot, or_text, last?,
  park, resume,
}

last?-append : (xs : List TaskSnapshot) (x : TaskSnapshot) → last? (xs ++ x ∷ []) ≡ some x
last?-append [] x = refl
last?-append (y ∷ []) x = refl
last?-append (y ∷ z ∷ xs) x = last?-append (z ∷ xs) x

find_self :
    (now id : String) (c : Changes) (s : State) (task : Task)
    → find_by_id id s ≡ some task
    → find_by_id id (update now id c s) ≡ some (apply_changes now c task)
find_self now id c s task e = rw (find_by_id-update now id id c s, eq_refl id, e) refl

-- The summary of the snapshot with which a task was parked.
abbrev pub remembered : ℕ → Task → SnapshotInput → ResumeSummary
remembered idle_hours task snapshot = record {
  task_title = task.title;
  last_progress = or_text (some (join "; " snapshot.done)) "尚未开始";
  pause_reason = or_text (some snapshot.pause_reason) "未知";
  current_status = "已恢复，可以继续";
  next_step = or_text (some snapshot.next_step) "继续推进任务";
  resources = task.resources;
  idle_hours = idle_hours;
}

parked_task : (ℕ → String) → SnapshotInput → Task → Task
parked_task at snapshot task =
    apply_changes (at 2) (record no_changes { status = some TaskStatus.parked })
      (apply_changes (at 1)
        (record no_changes {
          snapshots = some (task.snapshots ++ full_snapshot (at 0) snapshot ∷ []);
        })
        task)

park-parked :
    (at : ℕ → String) (id reason : String) (snapshot : SnapshotInput) (s : State) (task : Task)
    → find_by_id id s ≡ some task
    → task.status ≡ TaskStatus.running
    → (s' : State) × (park at id reason snapshot s ≡ ok (some (parked_task at snapshot task), s'))
      × (find_by_id id s' ≡ some (parked_task at snapshot task))
unfolding park parked_task append_snapshot save_snapshot update_status
park-parked at id reason snapshot s task e running =
    let full = full_snapshot (at 0) snapshot in
    let c = record no_changes { snapshots = some (task.snapshots ++ full ∷ []) } in
    let s1 = save_snapshot id full s in
    let s2 = update (at 1) id c s1 in
    let k = find_self (at 1) id c s1 task e in
    let l =
      find_self (at 2) id (record no_changes { status = some TaskStatus.parked }) s2
        (apply_changes (at 1) c task) k in
    (update_status (at 2) id TaskStatus.parked s2, ground arith, l)

-- If a running task is parked and then resumed, both succeed, the task is ready, and the summary
-- tells its title and resources and the work, the reason and the next step of the snapshot with
-- which it was parked, or the default text where these are empty.
pub resume-park :
    (at at' : ℕ → String) (hours_since : String → ℕ) (id reason : String) (snapshot : SnapshotInput)
    (s : State) (task : Task)
    → find_by_id id s ≡ some task
    → task.status ≡ TaskStatus.running
    → (s' : State) × (s'' : State) × (r : Option Task) × (t : Task) × (park at id reason snapshot s
        ≡ ok (r, s'))
      × (resume at' hours_since id s'
          ≡ ok ((some t, remembered (hours_since (at 2)) task snapshot), s''))
      × (find_by_id id s'' ≡ some t)
      × (t.status ≡ TaskStatus.ready)
unfolding resume parked_task apply_changes update_status get_latest_snapshot
resume-park at at' hours_since id reason snapshot s task e running =
    let (s', p, f) = park-parked at id reason snapshot s task e running in
    let t = parked_task at snapshot task in
    let c = record no_changes { status = some TaskStatus.ready } in
    let g = find_self (at' 0) id c s' t f in
    (
      s',
      update_status (at' 0) id TaskStatus.ready s',
      some t,
      apply_changes (at' 0) c t,
      p,
      ground (arith, last?-append task.snapshots (full_snapshot (at 0) snapshot)),
      g,
      refl,
    )
