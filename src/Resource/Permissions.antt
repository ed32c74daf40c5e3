-- ===== src/Resource/Permissions.antt =====
-- src/storage/permission-repo.ts: the requests of capabilities, the grants and the authorizations by
-- the user. A table is the list of its rows, without the column `partition_key`, which no statement
-- reads; a partition is kept as its value. Each use of `randomUUID` is a parameter. `none` is a
-- thrown error, after which the transaction is rolled back. A number of bytes is not negative, being
-- the length of a payload.
pub mod Rows
pub mod Outcome
pub mod Accounts
use metaclaw.Base.{
  ℕ, ◌+◌, Bool, true, false, ◌&&◌, ◌||◌, not, if◌then◌else◌, Option, none, some, eqb, ltb, ◌==◌,
  String, ◌⧺◌, List, [], ◌∷◌, ◌++◌, map, filter, find, any, length, head?, sort_by, unique,
}
use metaclaw.Host.{Host}
use metaclaw.Resource.{NormalizedCapabilityRequest, CapabilityGrant, CapabilityGrantLimits}
use metaclaw.Resource.Partition.{◌>>=◌}
use metaclaw.Resource.Key.{partition_canonical_key}
use metaclaw.Resource.Permissions.Rows.{
  RequestStatus, pending, granted, denied, escalated, RequestRecord, GrantRow, Authorization,
  AuthorizationRow, Store, is_open, is_restorable, is_escalated, is_denied, is_approval, request_le,
  grant_le, usable, spend,
}

-- `SELECT * FROM permission_requests WHERE id = ?`
unfoldable pub find_request : String → Store → Option RequestRecord
find_request request_id store = find (λ r. r.request.id == request_id) store.requests

unfoldable pub find_pending_for_task : String → Store → Option RequestRecord
find_pending_for_task task_id store = head? (
    sort_by request_le
      (filter (λ r. r.request.task_id == task_id && is_open r.status) store.requests))

unfoldable pub find_oldest_pending : Store → Option RequestRecord
find_oldest_pending store =
    head? (sort_by request_le (filter (λ r. is_open r.status) store.requests))

unfoldable pub list_escalated : Store → List RequestRecord
list_escalated store = sort_by request_le (filter (λ r. is_escalated r.status) store.requests)

unfoldable pub count_distinct_for_attempt : String → Store → ℕ
count_distinct_for_attempt attempt_id store =
    length (filter (λ r. r.request.attempt_id == attempt_id) store.requests)

unfoldable pub list_grants : String → Store → List CapabilityGrant
list_grants attempt_id store =
    map (λ r. r.grant)
      (sort_by grant_le (filter (λ r. r.grant.attempt_id == attempt_id) store.grants))

-- The order of `SELECT DISTINCT` is that in which the table meets the values.
unfoldable pub list_denied_fingerprints : String → Store → List String
list_denied_fingerprints attempt_id store = unique (
    map (λ r. r.request.fingerprint)
      (filter (λ r. r.request.attempt_id == attempt_id && is_denied r.status) store.requests))

unfoldable pub list_approved_fingerprints : String → Store → List String
list_approved_fingerprints task_id store = unique (
    map (λ a. a.fingerprint)
      (filter (λ a. a.task_id == task_id && is_approval a.authorization.resolution)
        store.authorizations))

-- The row that `UNIQUE(attempt_id, fingerprint)` allows once.
abbrev same_request : NormalizedCapabilityRequest → RequestRecord → Bool
same_request request r =
    r.request.attempt_id == request.attempt_id && r.request.fingerprint == request.fingerprint

module _ (host : Host) where
  -- `ON CONFLICT(attempt_id, fingerprint) DO NOTHING`; another row with the id is an error.
  unfoldable pub create_request :
      NormalizedCapabilityRequest → String → Store → Option (RequestRecord × Store)
  create_request request created_at store =
      partition_canonical_key host request.partition >>= λ key.
      let row : RequestRecord = record {
        request = request;
        status = pending;
        decision_id = none;
        decision_reason = none;
        created_at = created_at;
        resolved_at = none;
      } in
      elim (find (same_request request) store.requests) [
        | some old ↦ some (old, store)
        | none ↦
            if any (λ r. r.request.id == request.id) store.requests
            then none
            else some (row, record store { requests = store.requests ++ row ∷ [] })
      ]

-- The columns that a decision sets, in the rows that the test selects.
abbrev decided :
    (RequestRecord → Bool)
    → RequestStatus
    → String
    → String
    → Option String
    → List RequestRecord
    → List RequestRecord
decided test status decision_id reason resolved_at rows =
    map
      (λ r.
        if test r
        then record r {
          status = status;
          decision_id = some decision_id;
          decision_reason = some reason;
          resolved_at = resolved_at;
        }
        else r)
      rows

module _ (host : Host) where
  unfoldable pub restore_escalated_request :
      NormalizedCapabilityRequest
      → String
      → String
      → String
      → Store
      → Option (Option RequestRecord × Store)
  unfolding create_request find_request
  restore_escalated_request request created_at decision_id reason store =
      create_request host request created_at store >>= λ created.
      let test = λ (r : RequestRecord). r.request.id == request.id && is_restorable r.status in
      let rows = decided test escalated decision_id reason none created.1.requests in
      let after = record created.1 { requests = rows } in
      if not
        (created.0.request.id == request.id && created.0.request.fingerprint == request.fingerprint)
      then none
      else if not (eqb (length (filter test created.1.requests)) 1)
      then none
      else some (find_request request.id after, after)

-- `Number.isSafeInteger` and the update of the row; the number of the changed rows decides.
unfoldable pub consume_grant :
    String → String → ℕ → String → Store → Option (Option CapabilityGrant × Store)
unfolding usable
consume_grant grant_id attempt_id bytes at store =
    let fits = λ (row : GrantRow). usable grant_id attempt_id bytes at row.grant in
    let rows = map (λ row. if fits row then spend bytes row else row) store.grants in
    let answer =
      if eqb (length (filter fits store.grants)) 1
      then elim (find (λ row. row.grant.id == grant_id) rows) [
        | none ↦ none
        | some row ↦ some row.grant
      ]
      else none in
    if ltb 9007199254740991 bytes then none else some (answer, record store { grants = rows })

-- `INSERT OR IGNORE`, if there is an authorization.
unfoldable pub insert_authorization :
    String → NormalizedCapabilityRequest → Option Authorization → String → Store → Store
insert_authorization uuid request none created_at store = store
insert_authorization uuid request (some a) created_at store =
    let row : AuthorizationRow = record {
      id = "user_authorization_" ⧺ uuid;
      request_id = request.id;
      fingerprint = request.fingerprint;
      task_id = request.task_id;
      authorization = a;
      created_at = created_at;
    } in
    if any (λ b. b.id == row.id || b.authorization.received_event_id == a.received_event_id)
      store.authorizations
    then store
    else record store { authorizations = store.authorizations ++ row ∷ [] }

pub record GrantInput : Type 0 where
  pub decision_id : String
  pub request : NormalizedCapabilityRequest
  pub limits : CapabilityGrantLimits
  pub granted_at : String
  pub authorization : Option Authorization

unfoldable pub new_grant : String → GrantInput → GrantRow
new_grant uuid input = record {
  grant = record {
    id = "permission_grant_" ⧺ uuid;
    request_id = input.request.id;
    fingerprint = input.request.fingerprint;
    task_id = input.request.task_id;
    subtask_id = input.request.subtask_id;
    attempt_id = input.request.attempt_id;
    capability = input.request.capability;
    partition = input.request.partition;
    operation = input.request.operation;
    scope = input.request.suggested_scope;
    limits = input.limits;
    calls_used = 0;
    bytes_used = 0;
    revoked_at = none;
  };
  decision_id = input.decision_id;
  created_at = input.granted_at;
}

-- `ON CONFLICT(request_id) DO NOTHING`; another row with the id is an error.
unfoldable pub insert_grant : GrantRow → List GrantRow → Option (List GrantRow)
insert_grant row rows =
    if any (λ r. r.grant.request_id == row.grant.request_id) rows
    then some rows
    else if any (λ r. r.grant.id == row.grant.id) rows
    then none
    else some (rows ++ row ∷ [])

unfoldable pub grant :
    Host → String → String → GrantInput → Store → Option (CapabilityGrant × Store)
unfolding insert_authorization new_grant insert_grant
grant host authorization_uuid grant_uuid input store = do
  let noted =
      insert_authorization authorization_uuid input.request input.authorization input.granted_at
        store
  key ← partition_canonical_key host input.request.partition
  rows ← insert_grant (new_grant grant_uuid input) noted.grants
  row ← find (λ r. r.grant.request_id == input.request.id) rows
  some (
    row.grant,
    record {
      requests =
          decided (λ r. r.request.id == input.request.id) granted input.decision_id "granted"
            (some input.granted_at) noted.requests;
      grants = rows;
      authorizations = noted.authorizations;
    },
  )

pub record DenyInput : Type 0 where
  pub decision_id : String
  pub request : NormalizedCapabilityRequest
  pub reason : String
  pub denied_at : String
  pub authorization : Option Authorization

unfoldable pub deny : String → DenyInput → Store → Store
unfolding insert_authorization
deny uuid input store =
    let noted = insert_authorization uuid input.request input.authorization input.denied_at store in
    record noted {
      requests =
          decided (λ r. r.request.id == input.request.id) denied input.decision_id input.reason
            (some input.denied_at) noted.requests;
    }

unfoldable pub escalate : String → String → String → Store → Store
escalate request_id decision_id reason store = record store {
  requests =
      decided (λ r. r.request.id == request_id && is_open r.status) escalated decision_id reason
        none store.requests;
}
