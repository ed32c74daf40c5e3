-- ===== src/Task/Engine/Lifecycle.antt =====
-- The engine moves tasks along the table of transitions, or cancels one that is not finished.
use metaclaw.Base.{
  Bool, true, false, Bool-cases, Option, none, some, Option-cases, String, [], ◌∷◌, ◌≡◌, refl, ◌⊎◌,
  inl, inr, arith, ◌==◌, eq_iff,
}
use metaclaw.Kernel.Model.{TaskStatus}
use metaclaw.Task.{Task, Changes, same_status, one_of}
use metaclaw.Task.Repo.{State, find_by_id, apply_changes, update, find_by_id-update}
use metaclaw.Task.Engine.{valid_transitions}

abbrev pub status_in : Option Task → Option TaskStatus
status_in none = none
status_in (some t) = some t.status

unfoldable pub status_of : String → State → Option TaskStatus
status_of j s = status_in (find_by_id j s)

abbrev pub is_finished : TaskStatus → Bool
is_finished = one_of (TaskStatus.done ∷ TaskStatus.archived ∷ TaskStatus.cancelled ∷ [])

-- One move of the lifecycle.
pub data Move (a : TaskStatus) : TaskStatus → Type 0 where
  by_table : {b : TaskStatus} → one_of (valid_transitions a) b ≡ true → Move a b
  cancels : is_finished a ≡ false → Move a TaskStatus.cancelled

-- What may happen to one task: nothing, its creation, or a move.
abbrev pub Lawful : Option TaskStatus → Option TaskStatus → Type 0
Lawful o o' =
    (o' ≡ o)
    ⊎ ((o ≡ none) × (o' ≡ some TaskStatus.created))
    ⊎ ((a : TaskStatus) × (b : TaskStatus) × (o ≡ some a) × (o' ≡ some b) × Move a b)

pub same_status→eq : (a b : TaskStatus) → same_status a b ≡ true → a ≡ b
same_status→eq TaskStatus.created TaskStatus.created h = refl
same_status→eq TaskStatus.ready TaskStatus.ready h = refl
same_status→eq TaskStatus.running TaskStatus.running h = refl
same_status→eq TaskStatus.parked TaskStatus.parked h = refl
same_status→eq TaskStatus.blocked TaskStatus.blocked h = refl
same_status→eq TaskStatus.done TaskStatus.done h = refl
same_status→eq TaskStatus.archived TaskStatus.archived h = refl
same_status→eq TaskStatus.cancelled TaskStatus.cancelled h = refl
same_status→eq _ _ h = cc

pub status_of-update_kept :
    (now id j : String) (c : Changes) (s : State)
    → c.status ≡ none
    → status_of j (update now id c s) ≡ status_of j s
unfolding status_of apply_changes
status_of-update_kept now id j c s h = elim (Option-cases (find_by_id j s)) [
  | inl e ↦ ground (arith, find_by_id-update now id j c s)
  | inr (t, e) ↦ ground (arith, find_by_id-update now id j c s)
]

pub status_of-update_moved :
    (now id : String) (c : Changes) (s : State) (task : Task) (b : TaskStatus)
    → find_by_id id s ≡ some task
    → c.status ≡ some b
    → Move task.status b
    → (j : String) → Lawful (status_of j s) (status_of j (update now id c s))
unfolding status_of apply_changes
status_of-update_moved now id c s task b f h m j = elim (Bool-cases (id == j)) [
  | inr e ↦ inl (ground (arith, find_by_id-update now id j c s))
  | inl e ↦
      let same_id : id ≡ j = (eq_iff id j).0 e in
      let g : find_by_id j (update now id c s) ≡ some (apply_changes now c task) =
        ground (arith, find_by_id-update now id j c s) in
      inr (inr (task.status, b, ground arith, ground arith, m))
]
