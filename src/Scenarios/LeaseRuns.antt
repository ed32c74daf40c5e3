-- ===== src/Scenarios/LeaseRuns.antt =====
-- Runs of the leases: one attempt writes to a directory, another wants to read a file in it.
use metaclaw.Base.{
  ℕ, String, show_nat, ◌≡◌, refl, true, some, none, List, [], ◌∷◌, trim, any_char, split, sort_by,
}
use metaclaw.Resource.{path, read, write}
use metaclaw.Resource.Partition.{resource_claims_conflict}
use metaclaw.Resource.Key.{partition_canonical_key}
use metaclaw.Resource.Leases.Rows.{
  Lease, Store, ClaimInput, claimed, conflict, Wait, waiting, binary_le,
}
use metaclaw.Resource.Leases.{claim, new_lease}
use metaclaw.Resource.Leases.Exclusion.{Exclusive}
use metaclaw.Resource.Leases.Steps.{empty, claims, here, next, Reach-Exclusive}
use metaclaw.Resource.Leases.Outcome.{Outcome, claim-Outcome}
use metaclaw.Scenarios.{host}

abbrev uuids : ℕ → String
uuids = show_nat

abbrev writing : ClaimInput
writing = record {
  task_id = "t1";
  generation_id = "g1";
  subtask_id = "a";
  attempt_id = "x1";
  work_unit_id = "w1";
  lease_token = "k1";
  claims = record { partition = path "repo" "./src"; access = write } ∷ [];
  now = "01";
  expires_at = "05";
}

abbrev held : List Lease
held =
    new_lease host uuids writing 0 (record { partition = path "repo" "./src"; access = write })
      "path:repo:src"
    ∷ []

writing_run :
    claim host uuids writing empty ≡ some (claimed held, record { leases = held; waits = [] })
unfolding claim sort_by partition_canonical_key trim any_char split
writing_run = refl

abbrev reading : ClaimInput
reading = record writing {
  attempt_id = "x2";
  lease_token = "k2";
  claims = record { partition = path "repo" "src/a.ts"; access = read } ∷ [];
  now = "02";
}

abbrev blocked : Wait
blocked = record {
  id = "resource_wait_0";
  task_id = "t1";
  generation_id = "g1";
  subtask_id = "a";
  attempt_id = "x2";
  partition = path "repo" "src/a.ts";
  partition_key = "path:repo:src/a.ts";
  access = read;
  conflicting_lease_ids = "resource_lease_0" ∷ [];
  status = waiting;
  requested_at = "02";
  resolved_at = none;
}

abbrev busy : Store
busy = record { leases = held; waits = [] }

reading_run :
    claim host uuids reading busy
    ≡ some (conflict (blocked ∷ []) held, record { leases = held; waits = blocked ∷ [] })
unfolding claim sort_by partition_canonical_key trim any_char split binary_le
    resource_claims_conflict show_nat
reading_run = refl

claim-Outcome_example :
    Outcome host uuids reading busy
      (record { leases = held; waits = blocked ∷ [] })
      (conflict (blocked ∷ []) held)
claim-Outcome_example =
    claim-Outcome host uuids reading busy (record { leases = held; waits = blocked ∷ [] })
      (conflict (blocked ∷ []) held) reading_run

time_passes : binary_le "01" "01" ≡ true
unfolding binary_le
time_passes = refl

Reach-Exclusive_example : Exclusive host "01" busy
Reach-Exclusive_example =
    Reach-Exclusive host "01" (record { now = "01"; store = busy })
      (next here (claims uuids writing (claimed held) busy time_passes writing_run))
