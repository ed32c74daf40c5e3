-- ===== src/Resource/Permissions/Rows.antt =====
-- The rows of the tables `permission_requests`, `permission_grants` and `user_authorizations`.
use metaclaw.Base.{
  ℕ, ◌+◌, Bool, true, false, ◌&&◌, not, if◌then◌else◌, Option, is_some, ltb, leb, ◌==◌, String,
  List,
}
use metaclaw.Resource.{NormalizedCapabilityRequest, CapabilityGrant}
use metaclaw.Resource.Leases.Rows.{later, binary_le}

pub data RequestStatus : Type 0 where
  pending granted denied escalated expired : RequestStatus

pub record RequestRecord : Type 0 where
  pub request : NormalizedCapabilityRequest
  pub status : RequestStatus
  pub decision_id : Option String
  pub decision_reason : Option String
  pub created_at : String
  pub resolved_at : Option String

-- A grant with the columns that are not returned with it.
pub record GrantRow : Type 0 where
  pub grant : CapabilityGrant
  pub decision_id : String
  pub created_at : String

pub data Resolution : Type 0 where
  approve reject : Resolution

pub data Source : Type 0 where
  command button planner : Source

-- What the caller knows of an authorization.
pub record Authorization : Type 0 where
  pub resolution : Resolution
  pub source : Source
  pub planner_plan_id : Option String
  pub received_event_id : String

pub record AuthorizationRow : Type 0 where
  pub id : String
  pub request_id : String
  pub fingerprint : String
  pub task_id : String
  pub authorization : Authorization
  pub created_at : String

pub record Store : Type 0 where
  pub requests : List RequestRecord
  pub grants : List GrantRow
  pub authorizations : List AuthorizationRow

-- `status IN ('pending', 'escalated')`
abbrev pub is_open : RequestStatus → Bool
is_open pending = true
is_open escalated = true
is_open _ = false

-- `status IN ('pending', 'escalated', 'expired')`
abbrev pub is_restorable : RequestStatus → Bool
is_restorable expired = true
is_restorable s = is_open s

abbrev pub is_escalated : RequestStatus → Bool
is_escalated escalated = true
is_escalated _ = false

abbrev pub is_denied : RequestStatus → Bool
is_denied denied = true
is_denied _ = false

abbrev pub is_approval : Resolution → Bool
is_approval approve = true
is_approval reject = false

-- `ORDER BY created_at, id`, on the two columns of a row.
abbrev pub by_creation : String × String → String × String → Bool
by_creation a b = if later b.0 a.0 then true else if later a.0 b.0 then false else binary_le a.1 b.1

abbrev pub request_le : RequestRecord → RequestRecord → Bool
request_le a b = by_creation (a.created_at, a.request.id) (b.created_at, b.request.id)

abbrev pub grant_le : GrantRow → GrantRow → Bool
grant_le a b = by_creation (a.created_at, a.grant.id) (b.created_at, b.grant.id)

-- The condition under which a use of a grant is counted.
unfoldable pub usable : String → String → ℕ → String → CapabilityGrant → Bool
usable grant_id attempt_id bytes at g =
    g.id == grant_id
    && (g.attempt_id == attempt_id
        && (not (is_some g.revoked_at)
            && (later g.limits.expires_at at
                && (ltb g.calls_used g.limits.max_calls
                    && leb (g.bytes_used + bytes) g.limits.max_bytes))))

abbrev pub used : ℕ → CapabilityGrant → CapabilityGrant
used bytes g = record g { calls_used = g.calls_used + 1; bytes_used = g.bytes_used + bytes }

abbrev pub spend : ℕ → GrantRow → GrantRow
spend bytes row = record row { grant = used bytes row.grant }
