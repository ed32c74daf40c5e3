-- ===== src/Task/Repo.antt =====
-- src/storage/task-repo.ts. A column of JSON text is kept as its value. Of the index for searching
-- only the calls of `indexTask` are kept, and of the snapshot files, which the engine writes beside
-- the table, the task and the snapshot. Rows with equal times stand in the order of their insertion.
use metaclaw.Base.{
  Bool, true, false, ◌||◌, ◌&&◌, if◌then◌else◌, Option, none, some, get_or, ◌==◌, String, List, [],
  ◌∷◌, ◌++◌, map, filter, find, any, sort_by, ◌≡◌, arith, eq_iff,
}
use metaclaw.Kernel.Model.{TaskStatus}
use metaclaw.Task.{Task, user, system_smoke, TaskSnapshot, Changes, no_changes, same_status, one_of}
use metaclaw.Resource.Leases.Rows.{binary_le}

pub record State : Type 0 where
  pub tasks : List Task
  pub indexed : List Task
  pub files : List (String × TaskSnapshot)

abbrev pub with_id : String → Task → Bool
with_id id t = t.id == id

unfoldable pub find_by_id : String → State → Option Task
find_by_id id s = find (with_id id) s.tasks

-- The fields that an update gives replace those of the row.
unfoldable pub apply_changes : String → Changes → Task → Task
apply_changes now c t = record t {
  title = get_or c.title t.title;
  goal = get_or c.goal t.goal;
  source = get_or c.source t.source;
  smoke_run_id = get_or c.smoke_run_id t.smoke_run_id;
  status = get_or c.status t.status;
  summary = get_or c.summary t.summary;
  snapshots = get_or c.snapshots t.snapshots;
  resources = get_or c.resources t.resources;
  artifacts = get_or c.artifacts t.artifacts;
  dependencies = get_or c.dependencies t.dependencies;
  priority_signals = get_or c.priority_signals t.priority_signals;
  injected_preferences = get_or c.injected_preferences t.injected_preferences;
  last_scheduling_reason = get_or c.last_scheduling_reason t.last_scheduling_reason;
  last_interruption_reason = get_or c.last_interruption_reason t.last_interruption_reason;
  interruption_count = get_or c.interruption_count t.interruption_count;
  updated_at = now;
}

abbrev index_found : Option Task → List Task → List Task
index_found none indexed = indexed
index_found (some t) indexed = indexed ++ t ∷ []

unfoldable pub update : String → String → Changes → State → State
unfolding apply_changes find_by_id
update now id changes s =
    let tasks = map (λ t. if with_id id t then apply_changes now changes t else t) s.tasks in
    record s { tasks = tasks; indexed = index_found (find (with_id id) tasks) s.indexed }

unfoldable pub update_status : String → String → TaskStatus → State → State
unfolding update
update_status now id status s = update now id (record no_changes { status = some status }) s

-- `none` is the error of a task that is not there.
unfoldable pub append_snapshot : String → String → TaskSnapshot → State → Option State
unfolding update find_by_id
append_snapshot now id snapshot s = elim (find_by_id id s) [
  | none ↦ none
  | some task ↦
      some
        (update now id (record no_changes { snapshots = some (task.snapshots ++ snapshot ∷ []) }) s)
]

-- `none` is the error of the primary key.
unfoldable pub insert_task : Task → State → Option State
insert_task task s =
    if any (with_id task.id) s.tasks
    then none
    else some (record s { tasks = s.tasks ++ task ∷ []; indexed = s.indexed ++ task ∷ [] })

abbrev is_user : Task → Bool
is_user t = elim t.source [ user ↦ true | system_smoke ↦ false ]

-- `ORDER BY updated_at DESC`
abbrev updated_ge : Task → Task → Bool
updated_ge a b = binary_le b.updated_at a.updated_at

unfoldable pub select : (Task → Bool) → Bool → State → List Task
select p include_system_smoke s =
    sort_by updated_ge (filter (λ t. p t && (include_system_smoke || is_user t)) s.tasks)

unfoldable pub find_by_status : TaskStatus → Bool → State → List Task
unfolding select
find_by_status status = select (λ t. same_status t.status status)

unfoldable pub find_active : Bool → State → List Task
unfolding select
find_active = select (λ t.
    one_of
      (TaskStatus.created ∷ TaskStatus.ready ∷ TaskStatus.running ∷ TaskStatus.parked
        ∷ TaskStatus.blocked ∷ [])
      t.status)

unfoldable pub find_all : Bool → State → List Task
unfolding select
find_all = select (λ t. true)

-- What an update makes of a row that is found.
abbrev pub changed : String → Changes → Option Task → Option Task
changed now c none = none
changed now c (some t) = some (apply_changes now c t)

-- A row that is read after an update is the old one with the changes, and any other is the old one.
pub find_by_id-update :
    (now id j : String) (c : Changes) (s : State)
    → find_by_id j (update now id c s)
      ≡ (if id == j then changed now c (find_by_id j s) else find_by_id j s)
unfolding update
find_by_id-update now id j c s = over s.tasks
  where
    over :
        (ts : List Task)
        → find (with_id j) (map (λ t. if with_id id t then apply_changes now c t else t) ts)
          ≡ (if id == j then changed now c (find (with_id j) ts) else find (with_id j) ts)
    over [] = ground arith
    over (t ∷ ts) = ground (arith, eq_iff t.id id, eq_iff t.id j, eq_iff id j, over ts)
