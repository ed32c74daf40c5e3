-- ===== src/Task/Engine/History.antt =====
-- The engine over time.
use metaclaw.Base.{ℕ, true, Option, some, some_inj, String, ◌≡◌, refl, sym, ◌∙◌, ◌⊎◌, inl, inr}
use metaclaw.Kernel.Model.{TaskStatus}
use metaclaw.Task.{Task, one_of}
use metaclaw.Task.Result.{ok}
use metaclaw.Task.Repo.{State}
use metaclaw.Task.Engine.{
  valid_transitions, CreateInput, SnapshotInput, DependencyInput, ResumeSummary, create, transition,
  cancel, park, resume, block, unblock, attach_resource,
}
use metaclaw.Task.Engine.Lifecycle.{status_of, is_finished, Move, by_table, cancels, Lawful}
use metaclaw.Task.Engine.Moves.{
  create-Lawful, transition-Lawful, cancel-Lawful, park-Lawful, resume-Lawful, block-Lawful,
  unblock-Lawful, attach_resource-Lawful,
}

-- An operation that succeeds; one that throws changes nothing.
pub data Step (s s' : State) : Type 0 where
  creates :
      (generated now : String) (input : CreateInput) (t : Task)
      → create generated now input s ≡ ok (t, s')
      → Step s s'
  transitions :
      (at : ℕ → String) (id : String) (target : TaskStatus) (r : Option Task)
      → transition at id target s ≡ ok (r, s')
      → Step s s'
  cancels_task :
      (at : ℕ → String) (id reason : String) (r : Option Task)
      → cancel at id reason s ≡ ok (r, s')
      → Step s s'
  parks :
      (at : ℕ → String) (id reason : String) (snapshot : SnapshotInput) (r : Option Task)
      → park at id reason snapshot s ≡ ok (r, s')
      → Step s s'
  resumes :
      (at : ℕ → String) (hours_since : String → ℕ) (id : String) (r : Option Task × ResumeSummary)
      → resume at hours_since id s ≡ ok (r, s')
      → Step s s'
  blocks :
      (at : ℕ → String) (id : String) (dependency : DependencyInput) (r : Option Task)
      → block at id dependency s ≡ ok (r, s')
      → Step s s'
  unblocks :
      (at : ℕ → String) (id : String) (r : Option Task) → unblock at id s ≡ ok (r, s') → Step s s'
  attaches :
      (at : ℕ → String) (id path : String) (r : Option Task)
      → attach_resource at id path s ≡ ok (r, s')
      → Step s s'

pub data Reach (s : State) : State → Type 0 where
  here : Reach s s
  next : {t u : State} → Reach s t → Step t u → Reach s u

-- Each operation of the engine that succeeds leaves the status of every task as it was, creates
-- the task, or moves it along the table of transitions, but for a cancellation, which takes any
-- task that is not done, archived or cancelled.
pub Step-Lawful :
    (s s' : State) → Step s s' → (id : String) → Lawful (status_of id s) (status_of id s')
Step-Lawful s s' (creates generated now input t h) = create-Lawful generated now input s s' t h
Step-Lawful s s' (transitions at id target r h) = transition-Lawful at id target s s' r h
Step-Lawful s s' (cancels_task at id reason r h) = cancel-Lawful at id reason s s' r h
Step-Lawful s s' (parks at id reason snapshot r h) = park-Lawful at id reason snapshot s s' r h
Step-Lawful s s' (resumes at hours_since id r h) = resume-Lawful at hours_since id s s' r h
Step-Lawful s s' (blocks at id dependency r h) = block-Lawful at id dependency s s' r h
Step-Lawful s s' (unblocks at id r h) = unblock-Lawful at id s s' r h
Step-Lawful s s' (attaches at id path r h) = attach_resource-Lawful at id path s s' r h

-- What a finished task may still become.
abbrev pub StaysFinished : TaskStatus → Option TaskStatus → Type 0
StaysFinished a o = (o ≡ some a) ⊎ ((a ≡ TaskStatus.done) × (o ≡ some TaskStatus.archived))

table-finished :
    (a b : TaskStatus)
    → is_finished a ≡ true
    → one_of (valid_transitions a) b ≡ true
    → (a ≡ TaskStatus.done) × (b ≡ TaskStatus.archived)
table-finished TaskStatus.done TaskStatus.archived f h = (refl, refl)
table-finished _ _ f h = cc

Move-finished :
    (a b : TaskStatus)
    → is_finished a ≡ true
    → Move a b
    → (a ≡ TaskStatus.done) × (b ≡ TaskStatus.archived)
Move-finished a b f (by_table h) = table-finished a b f h
Move-finished a b f (cancels h) = cc

-- Whatever operations of the engine follow, a task that is done stays done or becomes archived,
-- and one that is archived or cancelled stays so.
pub Reach-StaysFinished :
    (s s' : State) (id : String) (a : TaskStatus)
    → Reach s s'
    → status_of id s ≡ some a
    → is_finished a ≡ true
    → StaysFinished a (status_of id s')
Reach-StaysFinished s s' id a here e f = inl e
Reach-StaysFinished s s' id a (next {t} r st) e f =
    onward (Reach-StaysFinished s t id a r e f) (Step-Lawful t s' st id)
  where
    onward :
        StaysFinished a (status_of id t)
        → Lawful (status_of id t) (status_of id s')
        → StaysFinished a (status_of id s')
    onward (inl x) (inl l) = inl (l ∙ x)
    onward (inl x) (inr (inl (l, _))) = cc
    onward (inl x) (inr (inr (b, c, p, q, m))) =
        let same : b ≡ a = some_inj (sym p ∙ x) in
        let (d, g) = Move-finished b c (rw same f) m in inr (sym same ∙ d, q ∙ rw g refl)
    onward (inr (d, x)) (inl l) = inr (d, l ∙ x)
    onward (inr (d, x)) (inr (inl (l, _))) = cc
    onward (inr (d, x)) (inr (inr (b, c, p, q, m))) =
        let same : b ≡ TaskStatus.archived = some_inj (sym p ∙ x) in
        let (g, _) = Move-finished b c (rw same refl) m in cc
