-- ===== src/Task/Engine/Moves.antt =====
-- Each operation of the engine does to every task what is lawful.
use metaclaw.Base.{
  ℕ, Bool, true, if◌then◌else◌, Bool-cases, Option, none, some, Option-cases, String, List, [], ◌∷◌,
  ◌++◌, find, map, unique, ◌≡◌, refl, inl, inr, arith,
}
use metaclaw.Kernel.Model.{TaskStatus}
use metaclaw.Task.{Task, no_changes, same_status, one_of}
use metaclaw.Task.Result.{ok}
use metaclaw.Task.Repo.{
  State, with_id, find_by_id, update, update_status, append_snapshot, insert_task,
}
use metaclaw.Task.Engine.{
  valid_transitions, CreateInput, SnapshotInput, DependencyInput, ResumeSummary, new_task, create,
  transition, cancel, save_snapshot, resolve, full_snapshot, full_dependency, park, resume, block,
  unblock, attach_resource,
}
use metaclaw.Task.Engine.Lifecycle.{
  status_of, is_finished, by_table, cancels, Lawful, same_status→eq, status_of-update_kept,
  status_of-update_moved,
}

pub transition-Lawful :
    (at : ℕ → String) (id : String) (target : TaskStatus) (s s' : State) (r : Option Task)
    → transition at id target s ≡ ok (r, s')
    → (j : String) → Lawful (status_of j s) (status_of j s')
unfolding transition
transition-Lawful at id target s s' r h j = elim (Option-cases (find_by_id id s)) [
  | inl e ↦ absurd (ground arith)
  | inr (task, e) ↦ elim (Bool-cases (one_of (valid_transitions task.status) target)) [
    | inr g ↦ absurd (ground arith)
    | inl g ↦
        let k : s' ≡ update_status (at 0) id target s = ground arith in
        rw k (
          status_of-update_moved (at 0) id (record no_changes { status = some target }) s task
            target e refl (by_table g) j)
  ]
]

pub cancel-Lawful :
    (at : ℕ → String) (id reason : String) (s s' : State) (r : Option Task)
    → cancel at id reason s ≡ ok (r, s')
    → (j : String) → Lawful (status_of j s) (status_of j s')
unfolding cancel
cancel-Lawful at id reason s s' r h j = elim (Option-cases (find_by_id id s)) [
  | inl e ↦ absurd (ground arith)
  | inr (task, e) ↦ elim (Bool-cases (is_finished task.status)) [
    | inl g ↦ absurd (ground arith)
    | inr g ↦
        let c = record no_changes {
          status = some TaskStatus.cancelled;
          last_interruption_reason = some reason;
        } in
        let k : s' ≡ update (at 0) id c s = ground arith in
        rw k (status_of-update_moved (at 0) id c s task TaskStatus.cancelled e refl (cancels g) j)
  ]
]

-- An operation that needs one status, first changes no status and then moves the task.
two_steps-Lawful :
    (now id : String) (from to : TaskStatus) (s s' : State) (task : Task)
    → find_by_id id s ≡ some task
    → same_status task.status from ≡ true
    → one_of (valid_transitions from) to ≡ true
    → ((j : String) → status_of j s' ≡ status_of j s)
    → (j : String) → Lawful (status_of j s) (status_of j (update_status now id to s'))
unfolding status_of update_status
two_steps-Lawful now id from to s s' task f at_from allowed kept j =
    let from' : task.status ≡ from = same_status→eq task.status from at_from in
    elim (Option-cases (find_by_id id s')) [
      | inl e ↦ absurd (ground (arith, kept id))
      | inr (task', e) ↦
          let q : task'.status ≡ from = ground (arith, kept id) in
          rw (← kept j) (
            status_of-update_moved now id (record no_changes { status = some to }) s' task' to e
              refl (rw q (by_table allowed)) j)
    ]

pub park-Lawful :
    (at : ℕ → String) (id reason : String) (snapshot : SnapshotInput) (s s' : State)
    (r : Option Task)
    → park at id reason snapshot s ≡ ok (r, s')
    → (j : String) → Lawful (status_of j s) (status_of j s')
unfolding park append_snapshot save_snapshot status_of
park-Lawful at id reason snapshot s s' r h j = elim (Option-cases (find_by_id id s)) [
  | inl e ↦ absurd (ground arith)
  | inr (task, e) ↦ elim (Bool-cases (same_status task.status TaskStatus.running)) [
    | inr g ↦ absurd (ground arith)
    | inl g ↦
        let full = full_snapshot (at 0) snapshot in
        let c = record no_changes { snapshots = some (task.snapshots ++ full ∷ []) } in
        let s1 = update (at 1) id c (save_snapshot id full s) in
        let k : s' ≡ update_status (at 2) id TaskStatus.parked s1 = ground arith in
        rw k (
          two_steps-Lawful (at 2) id TaskStatus.running TaskStatus.parked s s1 task e g refl
            (λ i. status_of-update_kept (at 1) id i c (save_snapshot id full s) refl) j)
  ]
]

pub resume-Lawful :
    (at : ℕ → String) (hours_since : String → ℕ) (id : String) (s s' : State)
    (r : Option Task × ResumeSummary)
    → resume at hours_since id s ≡ ok (r, s')
    → (j : String) → Lawful (status_of j s) (status_of j s')
unfolding resume
resume-Lawful at hours_since id s s' r h j = elim (Option-cases (find_by_id id s)) [
  | inl e ↦ absurd (ground arith)
  | inr (task, e) ↦ elim (Bool-cases (same_status task.status TaskStatus.parked)) [
    | inr g ↦ absurd (ground arith)
    | inl g ↦
        let k : s' ≡ update_status (at 0) id TaskStatus.ready s = ground arith in
        rw k (
          two_steps-Lawful (at 0) id TaskStatus.parked TaskStatus.ready s s task e g refl
            (λ i. refl) j)
  ]
]

pub block-Lawful :
    (at : ℕ → String) (id : String) (dependency : DependencyInput) (s s' : State) (r : Option Task)
    → block at id dependency s ≡ ok (r, s')
    → (j : String) → Lawful (status_of j s) (status_of j s')
unfolding block
block-Lawful at id dependency s s' r h j = elim (Option-cases (find_by_id id s)) [
  | inl e ↦ absurd (ground arith)
  | inr (task, e) ↦ elim (Bool-cases (same_status task.status TaskStatus.running)) [
    | inr g ↦ absurd (ground arith)
    | inl g ↦
        let full = full_dependency (at 0) dependency in
        let c = record no_changes { dependencies = some (task.dependencies ++ full ∷ []) } in
        let k : s' ≡ update_status (at 2) id TaskStatus.blocked (update (at 1) id c s) =
          ground arith in
        rw k (
          two_steps-Lawful (at 2) id TaskStatus.running TaskStatus.blocked s (update (at 1) id c s)
            task e g refl (λ i. status_of-update_kept (at 1) id i c s refl) j)
  ]
]

pub unblock-Lawful :
    (at : ℕ → String) (id : String) (s s' : State) (r : Option Task)
    → unblock at id s ≡ ok (r, s')
    → (j : String) → Lawful (status_of j s) (status_of j s')
unfolding unblock
unblock-Lawful at id s s' r h j = elim (Option-cases (find_by_id id s)) [
  | inl e ↦ absurd (ground arith)
  | inr (task, e) ↦ elim (Bool-cases (same_status task.status TaskStatus.blocked)) [
    | inr g ↦ absurd (ground arith)
    | inl g ↦
        let c = record no_changes { dependencies = some (map resolve task.dependencies) } in
        let k : s' ≡ update_status (at 1) id TaskStatus.ready (update (at 0) id c s) =
          ground arith in
        rw k (
          two_steps-Lawful (at 1) id TaskStatus.blocked TaskStatus.ready s (update (at 0) id c s)
            task e g refl (λ i. status_of-update_kept (at 0) id i c s refl) j)
  ]
]

pub attach_resource-Lawful :
    (at : ℕ → String) (id path : String) (s s' : State) (r : Option Task)
    → attach_resource at id path s ≡ ok (r, s')
    → (j : String) → Lawful (status_of j s) (status_of j s')
unfolding attach_resource
attach_resource-Lawful at id path s s' r h j = elim (Option-cases (find_by_id id s)) [
  | inl e ↦ absurd (ground arith)
  | inr (task, e) ↦
      let c = record no_changes { resources = some (unique (task.resources ++ path ∷ [])) } in
      let k : s' ≡ update (at 0) id c s = ground arith in
      inl (rw k (status_of-update_kept (at 0) id j c s refl))
]

find-append :
    (p : Task → Bool) (ts : List Task) (t : Task)
    → find p (ts ++ t ∷ [])
      ≡ elim (find p ts) [ none ↦ if p t then some t else none | some u ↦ some u ]
find-append p [] t = refl
find-append p (u ∷ ts) t = ground (arith, find-append p ts t)

insert_task-Lawful :
    (task : Task) (s s' : State)
    → insert_task task s ≡ some s'
    → task.status ≡ TaskStatus.created
    → (j : String) → Lawful (status_of j s) (status_of j s')
unfolding insert_task status_of find_by_id
insert_task-Lawful task s s' h fresh j =
    let k : s'.tasks ≡ s.tasks ++ task ∷ [] = ground arith in
    elim (Option-cases (find (with_id j) s.tasks)) [
      | inr (u, e) ↦ inl (ground (arith, find-append (with_id j) s.tasks task))
      | inl e ↦ elim (Bool-cases (with_id j task)) [
        | inl q ↦ inr (inl (ground arith, ground (arith, find-append (with_id j) s.tasks task)))
        | inr q ↦ inl (ground (arith, find-append (with_id j) s.tasks task))
      ]
    ]

pub create-Lawful :
    (generated now : String) (input : CreateInput) (s s' : State) (r : Task)
    → create generated now input s ≡ ok (r, s')
    → (j : String) → Lawful (status_of j s) (status_of j s')
unfolding create
create-Lawful generated now input s s' r h j = elim (Option-cases (insert_task task s)) [
  | inl e ↦ absurd (ground arith)
  | inr (s1, e) ↦ let k : s' ≡ s1 = ground arith in rw k (insert_task-Lawful task s s1 e refl j)
]
  where
    task : Task
    task = new_task generated now input
