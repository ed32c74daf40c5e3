-- ===== src/Resource/Leases.antt =====
-- src/storage/resource-lease-repo.ts, with the records of src/resource/repositories.ts: the tables
-- `resource_leases` and `resource_waits`, and the statements on them. A partition is kept as its
-- value where the table has its JSON text. `randomUUID` is a parameter, its results in order.
-- `none` is a thrown error, after which the transaction is rolled back. The rows of other tables to
-- which the foreign keys refer are taken to exist.
pub mod Rows
pub mod Exclusion
pub mod Steps
pub mod Insertion
pub mod Outcome
use metaclaw.Base.{
  ℕ, ◌+◌, Bool, true, false, ◌&&◌, ◌||◌, not, if◌then◌else◌, Option, none, some, get_or, is_some,
  eqb, ◌==◌, String, ◌⧺◌, List, [], ◌∷◌, ◌++◌, map, filter, find, any, contains, length, sort_by,
  text_le, truthy,
}
use metaclaw.Host.{Host}
use metaclaw.Resource.{ResourceClaim}
use metaclaw.Resource.Partition.{resource_claims_conflict, ◌>>=◌}
use metaclaw.Resource.Key.{partition_canonical_key}
use metaclaw.Resource.Leases.Rows.{
  Lease, Wait, WaitStatus, waiting, resolved, cancelled, Store, ClaimInput, ClaimResult, claimed,
  conflict, claim_of, is_active, same_access, later, is_waiting, binary_le, any_m, filter_m,
}

-- `ORDER BY created_at, id`
abbrev created_le : Lease → Lease → Bool
created_le a b =
    if later b.created_at a.created_at
    then true
    else if later a.created_at b.created_at
    then false
    else binary_le a.id b.id

unfoldable pub find_active : String → Store → List Lease
find_active now store = sort_by created_le (filter (is_active now) store.leases)

-- The test for a duplicate: the lease has the claim's key and access.
abbrev pub holds : String → ResourceClaim → Lease → Bool
holds key claim l = l.partition_key == key && same_access l.access claim.access

module _ (host : Host) (uuids : ℕ → String) (input : ClaimInput) where
  -- The row that `UNIQUE(attempt_id, partition_key, access_mode)` allows once.
  abbrev same_edge : ResourceClaim → String → Wait → Bool
  same_edge claim key w =
      w.attempt_id == input.attempt_id
      && w.partition_key == key
      && same_access w.access claim.access

  new_wait : ℕ → ResourceClaim → String → List Lease → Wait
  new_wait n claim key conflicts = record {
    id = "resource_wait_" ⧺ uuids n;
    task_id = input.task_id;
    generation_id = input.generation_id;
    subtask_id = input.subtask_id;
    attempt_id = input.attempt_id;
    partition = claim.partition;
    partition_key = key;
    access = claim.access;
    conflicting_lease_ids = sort_by text_le (map (λ l. l.id) conflicts);
    status = waiting;
    requested_at = input.now;
    resolved_at = none;
  }

  -- `ON CONFLICT … DO UPDATE SET`
  renewed_wait : List Lease → Wait → Wait
  renewed_wait conflicts w = record w {
    conflicting_lease_ids = sort_by text_le (map (λ l. l.id) conflicts);
    status = waiting;
    requested_at = input.now;
    resolved_at = none;
  }

  -- The returned row, and the table.
  upsert_wait : ℕ → ResourceClaim → List Lease → List Wait → Option (Wait × List Wait)
  unfolding new_wait renewed_wait
  upsert_wait n claim conflicts waits = do
    key ← partition_canonical_key host claim.partition
    let renew = λ (w : Wait). if same_edge claim key w then renewed_wait conflicts w else w
    let table =
        if any (same_edge claim key) waits
        then map renew waits
        else waits ++ new_wait n claim key conflicts ∷ []
    row ← find (same_edge claim key) table
    some (row, table)

  upsert_waits : ℕ → List (ResourceClaim × List Lease) → List Wait → Option (List Wait × List Wait)
  unfolding upsert_wait
  upsert_waits n [] waits = some ([], waits)
  upsert_waits n ((claim, []) ∷ items) waits = upsert_waits n items waits
  upsert_waits n ((claim, l ∷ ls) ∷ items) waits = upsert_wait n claim (l ∷ ls) waits >>= λ first.
      upsert_waits (n + 1) items first.1 >>= λ others. some (first.0 ∷ others.0, others.1)

  -- The conflicting leases of each claim.
  conflicts_of : List Lease → List ResourceClaim → Option (List (ResourceClaim × List Lease))
  conflicts_of conflicts [] = some []
  conflicts_of conflicts (claim ∷ claims) = do
    here ← filter_m (λ l. resource_claims_conflict host claim (claim_of l)) conflicts
    rest ← conflicts_of conflicts claims
    some ((claim, here) ∷ rest)

  unfoldable pub new_lease : ℕ → ResourceClaim → String → Lease
  new_lease n claim key = record {
    id = "resource_lease_" ⧺ uuids n;
    partition_key = key;
    partition = claim.partition;
    access = claim.access;
    task_id = input.task_id;
    generation_id = input.generation_id;
    subtask_id = input.subtask_id;
    attempt_id = input.attempt_id;
    work_unit_id = input.work_unit_id;
    lease_token = input.lease_token;
    heartbeat_at = input.now;
    expires_at = input.expires_at;
    released_at = none;
    revocation_requested_at = none;
    revocation_reason = none;
    created_at = input.now;
  }

  -- A row with the same id, or with the columns of `idx_resource_leases_identity`.
  abbrev pub clashes : Lease → Lease → Bool
  clashes row l =
      l.id == row.id
      || (l.attempt_id == row.attempt_id
          && (l.lease_token == row.lease_token
              && (l.partition_key == row.partition_key && same_access l.access row.access)))

  -- The loop over the claims: the leases held, and the table. A row that clashes with one of the
  -- table, released ones included, is an error.
  unfoldable pub insert_leases :
      ℕ → List ResourceClaim → List Lease → List Lease → Option (List Lease × List Lease)
  unfolding new_lease
  insert_leases n [] held table = some (held, table)
  insert_leases n (claim ∷ claims) held table =
      partition_canonical_key host claim.partition >>= λ key.
      let row = new_lease n claim key in
      let old = insert_leases n claims held table in
      let new = insert_leases (n + 1) claims (held ++ row ∷ []) (table ++ row ∷ []) in
      if any (holds key claim) held then old else if any (clashes row) table then none else new

  abbrev resolve_wait : Wait → Wait
  resolve_wait w =
      if w.attempt_id == input.attempt_id && is_waiting w.status
      then record w { status = resolved; resolved_at = some input.now }
      else w

  abbrev pub others_of : Store → List Lease
  others_of store =
      filter (λ l. not (l.attempt_id == input.attempt_id)) (find_active input.now store)

  abbrev pub own_of : Store → List Lease
  own_of store =
      filter (λ l. l.attempt_id == input.attempt_id && l.lease_token == input.lease_token)
        (find_active input.now store)

  -- The active leases of other attempts with which some claim conflicts.
  unfoldable pub conflicting : Store → Option (List Lease)
  unfolding find_active
  conflicting store =
      filter_m (λ l. any_m (λ c. resource_claims_conflict host c (claim_of l)) input.claims)
        (others_of store)

  unfoldable pub report_conflict : List Lease → Store → Option (ClaimResult × Store)
  unfolding conflicts_of upsert_waits
  report_conflict conflicts store = do
    items ← conflicts_of conflicts input.claims
    waits ← upsert_waits 0 items store.waits
    some (conflict waits.0 conflicts, record store { waits = waits.1 })

  unfoldable pub grant_claims : Store → Option (ClaimResult × Store)
  unfolding insert_leases find_active
  grant_claims store = insert_leases 0 input.claims (own_of store) store.leases >>= λ done.
      some (claimed done.0, record { leases = done.1; waits = map resolve_wait store.waits })

  unfoldable pub claim : Store → Option (ClaimResult × Store)
  unfolding conflicting report_conflict grant_claims
  claim store = conflicting store >>= λ conflicts. elim conflicts [
    | [] ↦ grant_claims store
    | l ∷ ls ↦ report_conflict (l ∷ ls) store
  ]

-- `UPDATE … WHERE`: the rows, and `changes`.
abbrev pub update_where : {A : Type 0} → (A → Bool) → (A → A) → List A → List A × ℕ
update_where p f rows = (map (λ r. if p r then f r else r) rows, length (filter p rows))

abbrev pub update_leases : (Lease → Bool) → (Lease → Lease) → Store → Store × ℕ
update_leases p f store =
    let (rows, changes) = update_where p f store.leases in (record store { leases = rows }, changes)

-- `attempt_id = ? AND released_at IS NULL`
abbrev unreleased_of : String → Lease → Bool
unreleased_of attempt_id l = l.attempt_id == attempt_id && not (is_some l.released_at)

abbrev release_at : String → Lease → Lease
release_at at l = record l { released_at = some at }

unfoldable pub heartbeat : String → String → String → String → Store → Store × ℕ
heartbeat attempt_id lease_token now expires_at =
    update_leases
      (λ l.
        l.attempt_id == attempt_id
        && l.lease_token == lease_token
        && is_active now l
        && not (is_some l.revocation_requested_at))
      (λ l. record l { heartbeat_at = now; expires_at = expires_at })

unfoldable pub release_attempt : String → String → String → Store → Store × ℕ
release_attempt attempt_id lease_token at =
    update_leases (λ l. unreleased_of attempt_id l && l.lease_token == lease_token) (release_at at)

unfoldable pub release_reconciled_attempt : String → String → Store → Store × ℕ
release_reconciled_attempt attempt_id at = update_leases (unreleased_of attempt_id) (release_at at)

unfoldable pub release_revoked_attempt : String → String → Store → Store × ℕ
release_revoked_attempt attempt_id at =
    update_leases (λ l. unreleased_of attempt_id l && is_some l.revocation_requested_at)
      (release_at at)

-- The filters on the generation, if it is given, and on the subtasks, if they are.
abbrev in_scope : String → Option String → Option (List String) → String → String → String → Bool
in_scope task_id generation_id subtask_ids task generation subtask =
    task == task_id
    && (not (truthy generation_id) || generation == get_or generation_id "")
    && elim subtask_ids [ none ↦ true | some ids ↦ contains ids subtask ]

unfoldable pub request_revocation :
    String → Option String → Option (List String) → String → String → Store → Store × ℕ
request_revocation task_id generation_id subtask_ids reason now =
    update_leases
      (λ l.
        in_scope task_id generation_id subtask_ids l.task_id l.generation_id l.subtask_id
        && not (is_some l.released_at))
      (λ l. record l {
        revocation_requested_at = some (get_or l.revocation_requested_at now);
        revocation_reason = some (get_or l.revocation_reason reason);
      })

unfoldable pub cancel_waits :
    String → Option String → Option (List String) → String → Store → Store × ℕ
cancel_waits task_id generation_id subtask_ids now store =
    let (rows, changes) =
      update_where
        (λ w.
          in_scope task_id generation_id subtask_ids w.task_id w.generation_id w.subtask_id
          && is_waiting w.status)
        (λ w. record w { status = cancelled; resolved_at = some now }) store.waits in
    (record store { waits = rows }, changes)

-- `ORDER BY requested_at, id`
abbrev requested_le : Wait → Wait → Bool
requested_le a b =
    if later b.requested_at a.requested_at
    then true
    else if later a.requested_at b.requested_at
    then false
    else binary_le a.id b.id

unfoldable pub find_waits : String → Store → List Wait
find_waits attempt_id store =
    sort_by requested_le (filter (λ w. w.attempt_id == attempt_id) store.waits)
