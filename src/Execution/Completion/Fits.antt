-- ===== src/Execution/Completion/Fits.antt =====
-- Where no budget is violated, the sums are within their limits.
use metaclaw.Base.{
  ℕ, ◌+◌, ◌≤◌, Bool, true, false, ◌||◌, get_or, ltb, String, List, [], ◌∷◌, length, append-nil, In,
  trim, is_empty, text_length, Dict, get, ◌≡◌, refl, inl, inr, arith,
}
use metaclaw.WorkGraph.Validation.Report.{at_index}
use metaclaw.Execution.Completion.Model.{
  HandoffItem, text_item, artifact_item, Handoff, CompletedEnvelope, IncomingUsage,
}
use metaclaw.Execution.Completion.Budgets.{
  edge_text, edge_artifacts, total_text, total_artifacts, over, item_budget, item_budgets,
  edge_budget, edge_budgets, validate_budgets,
}

abbrev pub ItemFits : HandoffItem → Type 0
ItemFits (text_item key value) = (is_empty (trim value) ≡ false) × (text_length value ≤ 4000)
ItemFits (artifact_item key paths) = (1 ≤ length paths) × (length paths ≤ 20)

pub record EdgeFits (incoming : Dict IncomingUsage) (h : Handoff) : Type 0 where
  pub items_fit : (i : HandoffItem) → In i h.items → ItemFits i
  pub text_fits : edge_text h.items ≤ 12000
  pub artifacts_fit : edge_artifacts h.items ≤ 20
  pub incoming_text_fits :
      (get_or
          (get h.to_subtask_id incoming)
          (record { text_characters = 0; artifact_paths = 0 })).text_characters
        + edge_text h.items
      ≤ 24000
  pub incoming_artifacts_fit :
      (get_or
          (get h.to_subtask_id incoming)
          (record { text_characters = 0; artifact_paths = 0 })).artifact_paths
        + edge_artifacts h.items
      ≤ 40

over-nil : (b : Bool) (path message : String) → over b path message ≡ [] → b ≡ false
over-nil true path message h = cc
over-nil false path message h = refl

over-limit :
    (limit n : ℕ) (path message : String) → over (ltb limit n) path message ≡ [] → n ≤ limit
over-limit limit n path message h = ground (arith, over-nil (ltb limit n) path message)

or-false : (a b : Bool) → (a || b) ≡ false → (a ≡ false) × (b ≡ false)
or-false a b h = ground arith

item_budget-ItemFits : (path : String) (i : HandoffItem) → item_budget path i ≡ [] → ItemFits i
item_budget-ItemFits path (text_item key value) h =
    let (blank, long) =
      or-false (is_empty (trim value)) (ltb 4000 (text_length value)) (over-nil _ _ _ h) in
    (blank, ground arith)
item_budget-ItemFits path (artifact_item key paths) h =
    let (few, many) = or-false (ltb (length paths) 1) (ltb 20 (length paths)) (over-nil _ _ _ h) in
    (ground arith, ground arith)

item_budgets-ItemFits :
    (base : String) (index : ℕ) (is : List HandoffItem)
    → item_budgets base index is ≡ []
    → (i : HandoffItem) → In i is
    → ItemFits i
unfolding item_budgets
item_budgets-ItemFits base index [] h i m = absurd m
item_budgets-ItemFits base index (j ∷ is) h i m =
    let parts =
      append-nil (item_budget (at_index base index) j) (item_budgets base (index + 1) is) h in
    elim m [
      | inl same ↦ rw same (item_budget-ItemFits (at_index base index) j parts.0)
      | inr n ↦ item_budgets-ItemFits base (index + 1) is parts.1 i n
    ]

edge_budget-EdgeFits :
    (incoming : Dict IncomingUsage) (index : ℕ) (h : Handoff)
    → edge_budget incoming index h ≡ []
    → EdgeFits incoming h
unfolding edge_budget
edge_budget-EdgeFits incoming index h e =
    let (a, r1) = append-nil _ _ e in
    let (b, r2) = append-nil _ _ r1 in
    let (c, r3) = append-nil _ _ r2 in
    let (d, f) = append-nil _ _ r3 in
    record {
      items_fit = item_budgets-ItemFits _ 0 h.items a;
      text_fits = over-limit 12000 (edge_text h.items) _ _ b;
      artifacts_fit = over-limit 20 (edge_artifacts h.items) _ _ c;
      incoming_text_fits = over-limit 24000 _ _ _ d;
      incoming_artifacts_fit = over-limit 40 _ _ _ f;
    }

edge_budgets-EdgeFits :
    (incoming : Dict IncomingUsage) (index : ℕ) (hs : List Handoff)
    → edge_budgets incoming index hs ≡ []
    → (h : Handoff) → In h hs
    → EdgeFits incoming h
unfolding edge_budgets
edge_budgets-EdgeFits incoming index [] e h m = absurd m
edge_budgets-EdgeFits incoming index (g ∷ hs) e h m =
    let parts =
      append-nil (edge_budget incoming index g) (edge_budgets incoming (index + 1) hs) e in
    elim m [
      | inl same ↦ rw same (edge_budget-EdgeFits incoming index g parts.0)
      | inr n ↦ edge_budgets-EdgeFits incoming (index + 1) hs parts.1 h n
    ]

pub record Fits (incoming : Dict IncomingUsage) (envelope : CompletedEnvelope) : Type 0 where
  pub edges_fit : (h : Handoff) → In h envelope.handoffs → EdgeFits incoming h
  pub total_text_fits : total_text envelope.handoffs ≤ 24000
  pub total_artifacts_fit : total_artifacts envelope.handoffs ≤ 40
  pub artifacts_fit : length envelope.artifacts ≤ 40

pub validate_budgets-Fits :
    (incoming : Dict IncomingUsage) (envelope : CompletedEnvelope)
    → validate_budgets incoming envelope ≡ []
    → Fits incoming envelope
unfolding validate_budgets
validate_budgets-Fits incoming envelope e =
    let (a, r1) = append-nil _ _ e in
    let (b, r2) = append-nil _ _ r1 in
    let (c, d) = append-nil _ _ r2 in
    record {
      edges_fit = edge_budgets-EdgeFits incoming 0 envelope.handoffs a;
      total_text_fits = over-limit 24000 (total_text envelope.handoffs) _ _ b;
      total_artifacts_fit = over-limit 40 (total_artifacts envelope.handoffs) _ _ c;
      artifacts_fit = over-limit 40 (length envelope.artifacts) _ _ d;
    }
