-- ===== src/Execution/Completion/Files.antt =====
-- `validateResultFiles`: the declared paths that are files in the workspace.
use metaclaw.Base.{
  ℕ, ◌+◌, Bool, false, ◌||◌, not, if◌then◌else◌, is_some, ◌==◌, String, ◌⧺◌, List, [], ◌∷◌,
  contains,
}
use metaclaw.WorkGraph.Validation.Report.{at_index}
use metaclaw.Execution.Completion.Model.{
  ContractViolation, contract_violation, completion_artifact_invalid, FileSystem,
}
use metaclaw.Execution.Completion.Parse.{strip_prefix}

ends_with_slash : String → Bool
ends_with_slash String.[] = false
ends_with_slash (String.◌∷◌ c String.[]) = String.◌∷◌ c "" == "/"
ends_with_slash (String.◌∷◌ c (String.◌∷◌ d s)) = ends_with_slash (String.◌∷◌ d s)

-- The separator is that of POSIX.
unfoldable pub is_within : String → String → Bool
unfolding ends_with_slash strip_prefix
is_within parent child =
    child == parent
    || is_some (strip_prefix (if ends_with_slash parent then parent else parent ⧺ "/") child)

module _ (fs : FileSystem) (root : String) where
  abbrev refuse :
      ℕ
      → String
      → String
      → List ContractViolation × List String
      → List ContractViolation × List String
  refuse index problem declared later = (
    contract_violation completion_artifact_invalid (at_index "resultFilePaths" index)
          (problem ⧺ ": " ⧺ declared)
        ∷ later.0,
    later.1,
  )

  -- The loop, with the paths seen so far; the artifacts in their order.
  unfoldable pub check_files : ℕ → List String → List String → List ContractViolation × List String
  unfolding is_within
  check_files index seen [] = ([], [])
  check_files index seen (declared ∷ rest) =
      let candidate = fs.resolve root declared in
      let real = fs.realpath candidate in
      let skipped = check_files (index + 1) seen rest in
      let added = check_files (index + 1) (real ∷ seen) rest in
      if fs.is_absolute declared
      then refuse index "result file path must be workspace-relative" declared skipped
      else if not (fs.exists candidate)
      then refuse index "result file does not exist" declared skipped
      else if not (is_within (fs.realpath root) real)
      then refuse index "result file escapes the workspace" declared skipped
      else if not (fs.is_file real)
      then refuse index "result path is not a file" declared skipped
      else if contains seen real
      then skipped
      else (added.0, real ∷ added.1)

  unfoldable pub validate_result_files : List String → List ContractViolation × List String
  unfolding check_files
  validate_result_files [] = ([], [])
  validate_result_files (p ∷ paths) =
      if not (fs.exists root)
      then (
        contract_violation completion_artifact_invalid "workspaceRoot"
              "workspace root does not exist"
            ∷ [],
        [],
      )
      else check_files 0 [] (p ∷ paths)
