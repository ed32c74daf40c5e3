-- ===== src/Execution/Completion/Accepted.antt =====
-- What holds of a completion that is accepted.
use metaclaw.Base.{
  ◌≤◌, Bool, false, Bool-cases, Option, get_or, eqb, ltb, String, List, [], ◌∷◌, map, ◌||◌, ◌*◌,
  append-nil, is_empty, trim, trim_start, text_length, Dict, ◌≡◌, refl, sym, inl, inr, arith,
  Distinct,
}
use metaclaw.Execution.Completion.Model.{
  ContractViolation, Report, completed_report, failed_report, ReportParse, not_json, invalid, valid,
  completed, CompletedEnvelope, accepted, OutgoingHandoff, IncomingUsage, AttemptSubtask,
  FileSystem,
}
use metaclaw.Execution.Completion.Parse.{
  marker_count, before_marker, behind_marker, byte_length, read_report, ParsedCompletion,
  parse_completion, parse_ok, parse_failed,
}
use metaclaw.Execution.Completion.Files.{validate_result_files}
use metaclaw.Execution.Completion.Checks.{validate_acceptance, validate_handoffs}
use metaclaw.Execution.Completion.Budgets.{validate_budgets}
use metaclaw.Execution.Completion.Contained.{AllContained, validate_result_files-AllContained}
use metaclaw.Execution.Completion.Fits.{Fits, validate_budgets-Fits}
use metaclaw.Execution.Completion.Keys.{validate_acceptance-Distinct, validate_handoffs-Distinct}
use metaclaw.Execution.Completion.{
  materialize_completed, completed_violations, judge_violations, judge_report,
  validate_completion_protocol,
}

module _ (parse_report : String → ReportParse) where
  -- The parts of a text that was parsed.
  pub record Parsed (raw body : String) (report : Report) : Type 0 where
    pub one_marker : marker_count raw ≡ 1
    pub is_body : body ≡ trim (before_marker raw)
    pub some_body : is_empty body ≡ false
    pub body_fits : text_length body ≤ 4000
    pub report_fits : byte_length (trim_start (behind_marker raw)) ≤ 131072
    pub is_report : parse_report (trim_start (behind_marker raw)) ≡ valid report

  read_report-valid :
      (body raw_report body' : String) (report : Report)
      → read_report parse_report body raw_report ≡ parse_ok body' report
      → (body ≡ body') × (parse_report raw_report ≡ valid report)
  unfolding read_report
  read_report-valid body raw_report body' report h = go (parse_report raw_report) refl
    where
      go :
          (r : ReportParse)
          → parse_report raw_report ≡ r
          → (body ≡ body') × (parse_report raw_report ≡ valid report)
      go (not_json m) e = absurd (ground arith)
      go (invalid issues) e = absurd (ground arith)
      go (valid q) e = (ground arith, ground arith)

  parse_completion-Parsed :
      (raw body : String) (report : Report)
      → parse_completion parse_report raw ≡ parse_ok body report
      → Parsed raw body report
  unfolding parse_completion
  parse_completion-Parsed raw body report h =
      let text = trim (before_marker raw) in
      let raw_report = trim_start (behind_marker raw) in
      elim (Bool-cases (eqb (marker_count raw) 1)) [
        | inr e ↦ absurd (ground arith)
        | inl one ↦ elim (Bool-cases (is_empty text)) [
          | inl e ↦ absurd (ground arith)
          | inr some_text ↦ elim (Bool-cases (ltb 4000 (text_length text))) [
            | inl e ↦ absurd (ground arith)
            | inr short ↦
                elim (Bool-cases
                  (is_empty raw_report || ltb (128 * 1024) (byte_length raw_report))) [
                    | inl e ↦ absurd (ground arith)
                    | inr fits ↦
                        let (same, v) =
                          read_report-valid text raw_report body report (ground arith) in
                        record {
                          one_marker = ground arith;
                          is_body = sym same;
                          some_body = rw (← same) some_text;
                          body_fits = rw (← same) (ground arith);
                          report_fits = ground arith;
                          is_report = v;
                        }
                  ]
          ]
        ]
      ]

module _ (locale_le : String → String → Bool) (parse_report : String → ReportParse)
    (fs : FileSystem) (subtask : AttemptSubtask) (outgoing : List OutgoingHandoff) (root : String)
    (incoming : Dict IncomingUsage) where
  pub record AcceptedCompletion (raw body : String) (envelope : CompletedEnvelope)
      (artifacts : List String) : Type 0 where
    pub paths : List String
    pub parsed :
        (p : Option (List String)) × (paths ≡ get_or p [])
        × Parsed parse_report raw body (completed_report p)
    pub materialized : envelope ≡ materialize_completed body subtask outgoing artifacts
    pub contained : AllContained fs root paths artifacts []
    pub acceptance_keys : Distinct (map (λ i. i.key) envelope.acceptance_evidence)
    pub targets : Distinct (map (λ h. h.to_subtask_id) envelope.handoffs)
    pub fits : Fits incoming envelope

  judge_violations-accepted :
      (body body' : String) (made envelope : CompletedEnvelope)
      (files artifacts warnings : List String) (vs : List ContractViolation)
      → judge_violations locale_le parse_report fs subtask outgoing root incoming body made files vs
        ≡ accepted body' (completed envelope) artifacts warnings
      → (vs ≡ []) × (body ≡ body') × (made ≡ envelope) × (files ≡ artifacts)
  unfolding judge_violations
  judge_violations-accepted body body' made envelope files artifacts warnings [] h =
      (refl, ground arith, ground arith, ground arith)
  judge_violations-accepted body body' made envelope files artifacts warnings (v ∷ vs) h = cc

  judge_report-Accepted :
      (raw body body' : String) (report : Report) (envelope : CompletedEnvelope)
      (artifacts warnings : List String)
      → Parsed parse_report raw body report
      → judge_report locale_le parse_report fs subtask outgoing root incoming body report
        ≡ accepted body' (completed envelope) artifacts warnings
      → AcceptedCompletion raw body' envelope artifacts
  unfolding judge_report completed_violations
  judge_report-Accepted raw body body' (failed_report f) envelope artifacts warnings p h = cc
  judge_report-Accepted raw body body' (completed_report paths) envelope artifacts warnings p h =
      let files = validate_result_files fs root (get_or paths []) in
      let made = materialize_completed body subtask outgoing files.1 in
      let (none_left, b, e, a) =
        judge_violations-accepted body body' made envelope files.1 artifacts warnings
          (completed_violations locale_le parse_report fs subtask outgoing root incoming files.0
            made)
          h in
      let (of_files, r1) = append-nil files.0 _ none_left in
      let (of_id, r2) = append-nil _ _ r1 in
      let (of_acceptance, r3) = append-nil (validate_acceptance subtask made) _ r2 in
      let (of_handoffs, of_budgets) =
        append-nil (validate_handoffs outgoing made) (validate_budgets incoming made) r3 in
      rw (← b, ← e, ← a)
        (record {
          paths = get_or paths [];
          parsed = (paths, refl, p);
          materialized = refl;
          contained = rw of_files at (validate_result_files-AllContained fs root (get_or paths []));
          acceptance_keys = validate_acceptance-Distinct subtask made of_acceptance;
          targets = validate_handoffs-Distinct outgoing made of_handoffs;
          fits = validate_budgets-Fits incoming made of_budgets;
        })

  -- A response that is accepted as completed has one marker, a body of 1 to 4000 code units and a
  -- report of at most 128 KiB that parses; its envelope is the one made of the body and of the
  -- artifacts, which are exactly the real paths of the declared files, each once, relative,
  -- existing and within the workspace; the keys and the targets of the envelope differ, and all
  -- its texts and paths are within their limits, the usage of the targets so far included.
  pub validate-Accepted :
      (raw body : String) (envelope : CompletedEnvelope) (artifacts warnings : List String)
      → validate_completion_protocol locale_le parse_report fs subtask outgoing root incoming raw
        ≡ accepted body (completed envelope) artifacts warnings
      → AcceptedCompletion raw body envelope artifacts
  unfolding validate_completion_protocol
  validate-Accepted raw body envelope artifacts warnings h =
      go (parse_completion parse_report raw) refl
    where
      go :
          (p : ParsedCompletion)
          → parse_completion parse_report raw ≡ p
          → AcceptedCompletion raw body envelope artifacts
      go (parse_failed b vs) e = absurd (ground arith)
      go (parse_ok b report) e =
          judge_report-Accepted raw b body report envelope artifacts warnings
            (parse_completion-Parsed parse_report raw b report e) (ground arith)
