-- ===== src/Resource/Leases/Rows.antt =====
-- The rows, and the tests of the statements' conditions.
use metaclaw.Base.{
  ℕ, Bool, true, false, ◌&&◌, not, if◌then◌else◌, Option, some, is_some, String, List, [], ◌∷◌,
  units_le, units_le_trans, ◌≡◌,
}
use Prim.Native.Char.{code}
use metaclaw.Resource.{PartitionIdentity, ResourceClaim, AccessMode, read, write}
use metaclaw.Resource.Partition.{◌>>=◌}

pub record Lease : Type 0 where
  pub id : String
  pub partition_key : String
  pub partition : PartitionIdentity
  pub access : AccessMode
  pub task_id : String
  pub generation_id : String
  pub subtask_id : String
  pub attempt_id : String
  pub work_unit_id : String
  pub lease_token : String
  pub heartbeat_at : String
  pub expires_at : String
  pub released_at : Option String
  pub revocation_requested_at : Option String
  pub revocation_reason : Option String
  pub created_at : String

pub data WaitStatus : Type 0 where
  waiting resolved cancelled : WaitStatus

pub record Wait : Type 0 where
  pub id : String
  pub task_id : String
  pub generation_id : String
  pub subtask_id : String
  pub attempt_id : String
  pub partition : PartitionIdentity
  pub partition_key : String
  pub access : AccessMode
  pub conflicting_lease_ids : List String
  pub status : WaitStatus
  pub requested_at : String
  pub resolved_at : Option String

pub record Store : Type 0 where
  pub leases : List Lease
  pub waits : List Wait

pub record ClaimInput : Type 0 where
  pub task_id : String
  pub generation_id : String
  pub subtask_id : String
  pub attempt_id : String
  pub work_unit_id : String
  pub lease_token : String
  pub claims : List ResourceClaim
  pub now : String
  pub expires_at : String

pub data ClaimResult : Type 0 where
  claimed : (leases : List Lease) → ClaimResult
  conflict : (waits : List Wait) (conflicting_leases : List Lease) → ClaimResult

abbrev pub claim_of : Lease → ResourceClaim
claim_of l = record { partition = l.partition; access = l.access }

abbrev pub same_access : AccessMode → AccessMode → Bool
same_access read read = true
same_access write write = true
same_access _ _ = false

abbrev pub is_waiting : WaitStatus → Bool
is_waiting waiting = true
is_waiting _ = false

code_points : String → List ℕ
code_points String.[] = []
code_points (String.◌∷◌ c s) = code c ∷ code_points s

-- `<=` of SQLite on texts: by their bytes, which is by their code points.
unfoldable pub binary_le : String → String → Bool
unfolding code_points units_le
binary_le s t = units_le (code_points s) (code_points t)

pub binary_le_trans :
    (s t u : String) → binary_le s t ≡ true → binary_le t u ≡ true → binary_le s u ≡ true
unfolding binary_le
binary_le_trans s t u = units_le_trans (code_points s) (code_points t) (code_points u)

-- `a > b`
abbrev pub later : String → String → Bool
later a b = not (binary_le a b)

-- `released_at IS NULL AND expires_at > ?`
abbrev pub is_active : String → Lease → Bool
is_active now l = not (is_some l.released_at) && later l.expires_at now

-- `some` and `filter` with a test that may throw.
module _ {A : Type 0} (test : A → Option Bool) where
  abbrev pub any_m : List A → Option Bool
  any_m [] = some false
  any_m (x ∷ xs) =
      let rest = any_m xs in test x >>= λ yes_here. if yes_here then some true else rest

  abbrev pub filter_m : List A → Option (List A)
  filter_m [] = some []
  filter_m (x ∷ xs) = do keep ← test x; rest ← filter_m xs; some (if keep then x ∷ rest else rest)
