-- ===== src/Execution/Completion/Parse.antt =====
-- `parseCompletion`: the marker, the text before it and the report behind it. No two occurrences of
-- the marker overlap, so that their number is that of the places where it stands.
use metaclaw.Base.{
  ℕ, ◌+◌, ◌||◌, not, if◌then◌else◌, Option, none, some, eqb, ltb, String, ◌⧺◌, List, [], ◌∷◌, map,
  length, trim, trim_start, is_empty, join, text_length, show_nat, is_some, ◌*◌,
}
use Prim.Native.Char.{code}
use metaclaw.Resource.Key.{utf8}
use metaclaw.Execution.Completion.Model.{
  ContractViolation, contract_violation, completion_malformed, completion_budget_exceeded, Report,
  ReportParse, not_json, invalid, valid,
}

abbrev pub completion_marker : String
completion_marker = "<!-- metaclaw:completion:v4 -->"

-- What follows the prefix.
unfoldable pub strip_prefix : String → String → Option String
strip_prefix String.[] s = some s
strip_prefix (String.◌∷◌ c p) String.[] = none
strip_prefix (String.◌∷◌ c p) (String.◌∷◌ d s) =
    if eqb (code c) (code d) then strip_prefix p s else none

unfoldable pub marker_count : String → ℕ
unfolding strip_prefix
marker_count String.[] = 0
marker_count (String.◌∷◌ c s) =
    (if is_some (strip_prefix completion_marker (String.◌∷◌ c s)) then 1 else 0) + marker_count s

-- The texts before and behind the first marker.
unfoldable pub before_marker : String → String
unfolding strip_prefix
before_marker String.[] = ""
before_marker (String.◌∷◌ c s) =
    if is_some (strip_prefix completion_marker (String.◌∷◌ c s))
    then ""
    else String.◌∷◌ c (before_marker s)

unfoldable pub behind_marker : String → String
unfolding strip_prefix
behind_marker String.[] = ""
behind_marker (String.◌∷◌ c s) = elim (strip_prefix completion_marker (String.◌∷◌ c s)) [
  | none ↦ behind_marker s
  | some rest ↦ rest
]

-- `Buffer.byteLength(text, 'utf8')`
unfoldable pub byte_length : String → ℕ
unfolding utf8
byte_length String.[] = 0
byte_length (String.◌∷◌ c s) = length (utf8 (code c)) + byte_length s

pub data ParsedCompletion : Type 0 where
  parse_ok : (body : String) (report : Report) → ParsedCompletion
  parse_failed : (body : Option String) (violations : List ContractViolation) → ParsedCompletion

abbrev pub failure : ContractViolation → ParsedCompletion
failure v = parse_failed none (v ∷ [])

abbrev issue_violation : List String × String → ContractViolation
issue_violation issue =
    let path = join "." issue.0 in
    contract_violation completion_malformed (if is_empty path then "report" else path) issue.1

module _ (parse_report : String → ReportParse) where
  unfoldable pub read_report : String → String → ParsedCompletion
  unfolding join
  read_report body raw_report = elim (parse_report raw_report) [
    | not_json message ↦ failure (
        contract_violation completion_malformed "report"
          ("completion report is not strict JSON: " ⧺ message))
    | invalid issues ↦ parse_failed (some body) (map issue_violation issues)
    | valid report ↦ parse_ok body report
  ]

  unfoldable pub parse_completion : String → ParsedCompletion
  unfolding marker_count before_marker behind_marker byte_length read_report trim trim_start
      text_length
  parse_completion raw =
      let body = trim (before_marker raw) in
      let raw_report = trim_start (behind_marker raw) in
      if not (eqb (marker_count raw) 1)
      then failure (
          contract_violation completion_malformed "marker" (
            "expected exactly one final completion marker, received "
            ⧺ show_nat (marker_count raw)))
      else if is_empty body
      then failure
          (contract_violation completion_malformed "body" "completion body must be non-empty")
      else if ltb 4000 (text_length body)
      then failure (
          contract_violation completion_budget_exceeded "body"
            "result description exceeds 4000 characters")
      else if is_empty raw_report || ltb (128 * 1024) (byte_length raw_report)
      then failure (
          contract_violation completion_budget_exceeded "report"
            "completion report is empty or exceeds 128 KiB")
      else read_report body raw_report
