-- ===== src/Kernel/Decide/Repair/Merge.antt =====
-- The budgets of `decideMergeConflict`.
use metaclaw.Base.{
  ℕ, ◌≤◌, ◌<◌, ◌≡◌, inl, inr, Option, some, get_or, String, List, List-cases, [], ◌∷◌, map,
  Option-cases, Bool-cases, arith, ltb, eqb,
}
use metaclaw.Kernel.Model.{Event, MergeConflict, merge_repair}
use metaclaw.Kernel.Snapshot.{
  Dispatch, DispatchItem, Action, block_work, dispatch_batch, park_for_replan, request_merge_replan,
}
use metaclaw.Kernel.Select.{present, decision, single_dispatch_batch}
use metaclaw.Kernel.Decide.Repair.{merge_conflict_for, decide_merge_conflict}

-- A repair is launched in the first three rounds and with a free slot; a replan follows once,
-- behind three repairs; behind both budgets the task is parked.
pub record MergeBudget (repairs replans slots : ℕ) (source : String) (a : Action) : Type 0 where
  pub repair :
      (t : String) (items : List DispatchItem)
      → a ≡ dispatch_batch t items
      → (repairs < 3)
        × (0 < slots)
        × (map (λ i. i.attempt_kind) items ≡ merge_repair ∷ [])
        × (map (λ i. i.source_attempt_id) items ≡ some source ∷ [])
  pub replanned :
      (t s p c : String) → a ≡ request_merge_replan t s p c → (3 ≤ repairs) × (replans ≡ 0)
  pub parked : (t : String) → a ≡ park_for_replan t → (3 ≤ repairs) × (1 ≤ replans)

merge_conflict_for-MergeBudget :
    (event : Event) (conflict : MergeConflict) (snapshot : Dispatch) (task_id subtask_id : String)
    → MergeBudget conflict.repair_attempts_used conflict.conflict_replans_used
        snapshot.available_slots conflict.source_attempt_id
        (merge_conflict_for event conflict snapshot task_id subtask_id).action
unfolding merge_conflict_for decision single_dispatch_batch
merge_conflict_for-MergeBudget event conflict snapshot task_id subtask_id =
    elim (Bool-cases (ltb conflict.repair_attempts_used 3)) [
      | inl r ↦ elim (Bool-cases (eqb snapshot.available_slots 0)) [
        | inl z ↦ record {
          repair = λ t items h. absurd (ground arith);
          replanned = λ t s p c h. absurd (ground arith);
          parked = λ t h. absurd (ground arith);
        }
        | inr z ↦ record {
          repair = λ t items h. (ground arith, ground arith, ground arith, ground arith);
          replanned = λ t s p c h. absurd (ground arith);
          parked = λ t h. absurd (ground arith);
        }
      ]
      | inr r ↦ record {
        repair = λ t items h. absurd (ground arith);
        replanned = λ t s p c h. (ground arith, ground arith);
        parked = λ t h. (ground arith, ground arith);
      }
    ]

incomplete-MergeBudget :
    (repairs replans slots : ℕ) (source t : String) (s : Option String)
    → MergeBudget repairs replans slots source (block_work t s)
incomplete-MergeBudget repairs replans slots source t s = record {
  repair = λ u items h. absurd (ground arith);
  replanned = λ u v p c h. absurd (ground arith);
  parked = λ u h. absurd (ground arith);
}

-- A merge conflict starts a repair attempt, one item of that kind from the conflicting attempt,
-- only when fewer than three were used and a slot is free; it requests a conflict replan only
-- behind three repairs and when none was used, and parks the task only when both budgets are used
-- up.
pub decide_merge_conflict-MergeBudget :
    (event : Event) (conflict : MergeConflict) (snapshot : Dispatch)
    → MergeBudget conflict.repair_attempts_used conflict.conflict_replans_used
        snapshot.available_slots conflict.source_attempt_id
        (decide_merge_conflict event conflict snapshot).action
unfolding decide_merge_conflict decision
decide_merge_conflict-MergeBudget event conflict snapshot =
    let refused =
      incomplete-MergeBudget conflict.repair_attempts_used conflict.conflict_replans_used
        snapshot.available_slots conflict.source_attempt_id (get_or event.task_id "")
        event.subtask_id in
    elim (Option-cases (present event.task_id)) [
      | inl t ↦ rw (decide_merge_conflict, t) refused
      | inr (task_id, t) ↦ elim (Option-cases (present event.subtask_id)) [
        | inl s ↦ rw (decide_merge_conflict, t, s) refused
        | inr (subtask_id, s) ↦ elim (List-cases conflict.conflicting_paths) [
          | inl p ↦ rw (decide_merge_conflict, t, s, p) refused
          | inr (p, ps, e) ↦
              rw (decide_merge_conflict, t, s, e)
                (merge_conflict_for-MergeBudget event conflict snapshot task_id subtask_id)
        ]
      ]
    ]
