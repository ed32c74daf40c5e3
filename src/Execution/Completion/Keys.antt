-- ===== src/Execution/Completion/Keys.antt =====
-- Where no acceptance and no handoff is refused, their keys are different.
use metaclaw.Base.{
  ℕ, ◌+◌, false, ◌||◌, Bool-cases, ◌==◌, String, List, [], ◌∷◌, ◌++◌, map, append-nil, contains, In,
  Distinct, Dict, index_by, ◌≡◌, refl, inl, inr, arith, eq_iff,
}
use metaclaw.Execution.Completion.Model.{
  AcceptanceEvidence, Handoff, CompletedEnvelope, OutgoingHandoff, AttemptSubtask,
}
use metaclaw.Execution.Completion.Checks.{
  add, item_violations, acceptance_items, validate_acceptance, target_violations, handoff_targets,
  validate_handoffs,
}

contains-append :
    (xs : List String) (a k : String) → contains (xs ++ a ∷ []) k ≡ contains xs k || a == k
contains-append [] a k = ground arith
contains-append (x ∷ xs) a k = ground (arith, contains-append xs a k)

-- The keys are new, and differ from each other.
abbrev New : List String → List String → Type 0
New seen keys = ((k : String) → In k keys → contains seen k ≡ false) × Distinct keys

New-cons :
    (seen keys : List String) (a : String)
    → contains seen a ≡ false
    → New (add a seen) keys
    → New seen (a ∷ keys)
New-cons seen keys a fresh (n, d) = (
  λ k m. elim m [ inl same ↦ rw same fresh | inr i ↦ (unseen k (n k i)).1 ],
  (λ m. (unseen a (n a m)).0 refl, d),
)
  where
    unseen :
        (k : String) → contains (add a seen) k ≡ false → (¬ (a ≡ k)) × (contains seen k ≡ false)
    unseen k h =
        let g : contains (seen ++ a ∷ []) k ≡ false = rw fresh at h in
        (
          λ q. ground (arith, contains-append seen a k, eq_iff a k),
          ground (arith, contains-append seen a k),
        )

item_violations-fresh :
    (index : ℕ) (actual : List String) (item : AcceptanceEvidence)
    → item_violations index actual item ≡ []
    → contains actual item.key ≡ false
unfolding item_violations
item_violations-fresh index actual item h = elim (Bool-cases (contains actual item.key)) [
  | inl old ↦ absurd (ground (arith, rw old at h))
  | inr fresh ↦ fresh
]

target_violations-fresh :
    (expected : Dict OutgoingHandoff) (index : ℕ) (seen : List String) (g : Handoff)
    → target_violations expected index seen g ≡ []
    → contains seen g.to_subtask_id ≡ false
unfolding target_violations
target_violations-fresh expected index seen g h =
    elim (Bool-cases (contains seen g.to_subtask_id)) [
      | inl old ↦ absurd (ground (arith, rw old at h))
      | inr fresh ↦ fresh
    ]

acceptance_items-New :
    (index : ℕ) (actual : List String) (items : List AcceptanceEvidence)
    → (acceptance_items index actual items).0 ≡ []
    → New actual (map (λ i. i.key) items)
unfolding acceptance_items
acceptance_items-New index actual [] h = (λ k m. absurd m, tt)
acceptance_items-New index actual (item ∷ rest) h =
    let (head, tail) =
      append-nil (item_violations index actual item)
        (acceptance_items (index + 1) (add item.key actual) rest).0 h in
    New-cons actual (map (λ i. i.key) rest) item.key (item_violations-fresh index actual item head)
      (acceptance_items-New (index + 1) (add item.key actual) rest tail)

handoff_targets-New :
    (expected : Dict OutgoingHandoff) (index : ℕ) (seen : List String) (hs : List Handoff)
    → (handoff_targets expected index seen hs).0 ≡ []
    → New seen (map (λ h. h.to_subtask_id) hs)
unfolding handoff_targets
handoff_targets-New expected index seen [] h = (λ k m. absurd m, tt)
handoff_targets-New expected index seen (g ∷ rest) h =
    let (head, tail) =
      append-nil (target_violations expected index seen g)
        (handoff_targets expected (index + 1) (add g.to_subtask_id seen) rest).0 h in
    New-cons seen (map (λ x. x.to_subtask_id) rest) g.to_subtask_id
      (target_violations-fresh expected index seen g head)
      (handoff_targets-New expected (index + 1) (add g.to_subtask_id seen) rest tail)

pub validate_acceptance-Distinct :
    (subtask : AttemptSubtask) (envelope : CompletedEnvelope)
    → validate_acceptance subtask envelope ≡ []
    → Distinct (map (λ i. i.key) envelope.acceptance_evidence)
unfolding validate_acceptance
validate_acceptance-Distinct subtask envelope h =
    let (items, _) = append-nil (acceptance_items 0 [] envelope.acceptance_evidence).0 _ h in
    (acceptance_items-New 0 [] envelope.acceptance_evidence items).1

pub validate_handoffs-Distinct :
    (outgoing : List OutgoingHandoff) (envelope : CompletedEnvelope)
    → validate_handoffs outgoing envelope ≡ []
    → Distinct (map (λ h. h.to_subtask_id) envelope.handoffs)
unfolding validate_handoffs
validate_handoffs-Distinct outgoing envelope h =
    let (targets, _) =
      append-nil
        (handoff_targets (index_by (λ c. c.to_subtask_id) outgoing) 0 [] envelope.handoffs).0 _ h in
    (handoff_targets-New (index_by (λ c. c.to_subtask_id) outgoing) 0 [] envelope.handoffs
      targets).1
