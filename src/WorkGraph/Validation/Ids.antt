-- ===== src/WorkGraph/Validation/Ids.antt =====
-- The first loop of `validateWorkGraph`, where it finds no violation.
use metaclaw.Base.{
  ℕ, ◌+◌, ◌≡◌, ◌⊎◌, inl, inr, true, false, ◌||◌, Bool-cases, String, List, [], ◌∷◌, map, In,
  Distinct, is_empty, trim, Dict, set, has, get-set, arith, ◌==◌, eq_iff, eq_refl, append-nil,
}
use metaclaw.WorkGraph.{Subtask}
use metaclaw.WorkGraph.Validation.Contract.{subtask_contract_violations}
use metaclaw.WorkGraph.Validation.{id_violations}

has-set : {V : Type 0} (k j : String) (v : V) (m : Dict V) → has j (set k v m) ≡ (k == j) || has j m
unfolding has
has-set k j v m = ground (arith, get-set k j v m)

-- The ids that the first loop accepts are new, and differ from each other.
unfoldable pub FreshIds : Dict Subtask → List Subtask → Type 0
FreshIds by_id [] = Unit
FreshIds by_id (s ∷ rest) =
    (is_empty (trim s.id) ≡ false) × (has s.id by_id ≡ false) × FreshIds (set s.id s by_id) rest

pub id_violations-FreshIds :
    (by_id : Dict Subtask) (index : ℕ) (ss : List Subtask)
    → (id_violations by_id index ss).0 ≡ []
    → FreshIds by_id ss
unfolding id_violations FreshIds
id_violations-FreshIds by_id index [] h = tt
id_violations-FreshIds by_id index (s ∷ rest) h = elim (Bool-cases (is_empty (trim s.id))) [
  | inl e ↦ absurd (ground arith)
  | inr e ↦ elim (Bool-cases (has s.id by_id)) [
    | inl k ↦ absurd (ground arith)
    | inr k ↦
        let tail = append-nil (subtask_contract_violations s index) _ (rw (e, k) at h) in
        (e, k, id_violations-FreshIds (set s.id s by_id) (index + 1) rest tail.1)
  ]
]

FreshIds-apart :
    (by_id : Dict Subtask) (ss : List Subtask)
    → FreshIds by_id ss
    → (k : String) → In k (map (λ s. s.id) ss)
    → has k by_id ≡ false
unfolding FreshIds
FreshIds-apart by_id [] f k m = absurd m
FreshIds-apart by_id (s ∷ rest) (e, h, f) k (inl same) = rw same h
FreshIds-apart by_id (s ∷ rest) (e, h, f) k (inr m) =
    let later = FreshIds-apart (set s.id s by_id) rest f k m in
    ground (arith, has-set s.id k s by_id)

pub FreshIds-Distinct :
    (by_id : Dict Subtask) (ss : List Subtask) → FreshIds by_id ss → Distinct (map (λ s. s.id) ss)
unfolding FreshIds
FreshIds-Distinct by_id [] f = tt
FreshIds-Distinct by_id (s ∷ rest) (e, h, f) = (
  λ m. clash (FreshIds-apart (set s.id s by_id) rest f s.id m),
  FreshIds-Distinct (set s.id s by_id) rest f,
)
  where
    clash : has s.id (set s.id s by_id) ≡ false → ⊥
    clash q = ground (arith, has-set s.id s.id s by_id, eq_refl s.id)

pub FreshIds-named :
    (by_id : Dict Subtask) (ss : List Subtask)
    → FreshIds by_id ss
    → (s : Subtask) → In s ss
    → is_empty (trim s.id) ≡ false
unfolding FreshIds
FreshIds-named by_id [] f s m = absurd m
FreshIds-named by_id (t ∷ rest) (e, h, f) s (inl same) = rw same e
FreshIds-named by_id (t ∷ rest) (e, h, f) s (inr m) = FreshIds-named (set t.id t by_id) rest f s m

-- The map of the first loop has no other keys than the ids of the subtasks.
pub id_violations-known :
    (by_id : Dict Subtask) (index : ℕ) (ss : List Subtask) (k : String)
    → has k (id_violations by_id index ss).1 ≡ true
    → (has k by_id ≡ true) ⊎ In k (map (λ s. s.id) ss)
unfolding id_violations
id_violations-known by_id index [] k h = inl h
id_violations-known by_id index (s ∷ rest) k h =
    elim (Bool-cases (is_empty (trim s.id) || has s.id by_id)) [
      | inl kept ↦ elim (id_violations-known by_id (index + 1) rest k (rw kept at h)) [
        | inl old ↦ inl old
        | inr m ↦ inr (inr m)
      ]
      | inr new ↦ elim (id_violations-known (set s.id s by_id) (index + 1) rest k (rw new at h)) [
        | inl old ↦ ground (arith, has-set s.id k s by_id, eq_iff s.id k)
        | inr m ↦ inr (inr m)
      ]
    ]
