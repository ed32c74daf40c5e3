-- ===== src/Resource/Permissions/Accounts.antt =====
-- The uses of the grants over time, counted beside the store.
pub mod Others
pub mod Grants
pub mod Uses
pub mod History
use metaclaw.Base.{
  ℕ, ◌+◌, ◌≤◌, Bool, true, false, ◌&&◌, ◌||◌, not, if◌then◌else◌, Bool-cases, Option, none, some,
  eqb, ltb, leb, ◌==◌, String, List, [], ◌∷◌, ◌++◌, map, filter, find, any, any_of_mem, length, In,
  Distinct, mem-append, mem-append_left, mem-append_right, mem-map_of_mem, mem-map, ◌≡◌, ◌≢◌, ◌∙◌,
  refl, sym, ap, ◌⊎◌, inl, inr, arith, eq_iff, eq_refl,
}
use metaclaw.Host.{Host}
use metaclaw.Resource.{CapabilityGrant, NormalizedCapabilityRequest}
use metaclaw.Resource.Partition.{◌>>=◌}
use metaclaw.Resource.Key.{partition_canonical_key}
use metaclaw.Resource.Permissions.Rows.{
  GrantRow, RequestRecord, Store, Authorization, usable, used, spend,
}
use metaclaw.Resource.Permissions.{
  create_request, restore_escalated_request, consume_grant, GrantInput, new_grant, insert_grant,
  insert_authorization, grant, DenyInput, deny, escalate,
}
use metaclaw.Resource.Permissions.Outcome.{
  DistinctIds, Outcome, spent, refused, consume_grant-Outcome,
}

-- A use that was counted.
pub record Use : Type 0 where
  pub grant_id : String
  pub bytes : ℕ

unfoldable pub calls_of : String → List Use → ℕ
calls_of grant_id [] = 0
calls_of grant_id (u ∷ us) = (if u.grant_id == grant_id then 1 else 0) + calls_of grant_id us

unfoldable pub bytes_of : String → List Use → ℕ
bytes_of grant_id [] = 0
bytes_of grant_id (u ∷ us) = (if u.grant_id == grant_id then u.bytes else 0) + bytes_of grant_id us

pub record Ledger : Type 0 where
  pub store : Store
  pub uses : List Use

abbrev pub empty : Ledger
empty = record { store = record { requests = []; grants = []; authorizations = [] }; uses = [] }

-- What the row of a grant counts is what was used, and within the limits.
pub record Balanced (uses : List Use) (row : GrantRow) : Type 0 where
  pub calls : row.grant.calls_used ≡ calls_of row.grant.id uses
  pub bytes : row.grant.bytes_used ≡ bytes_of row.grant.id uses
  pub calls_fit : row.grant.calls_used ≤ row.grant.limits.max_calls
  pub bytes_fit : row.grant.bytes_used ≤ row.grant.limits.max_bytes

pub record Accounted (l : Ledger) : Type 0 where
  pub ids : DistinctIds l.store.grants
  pub one_per_request : Distinct (map (λ r. r.grant.request_id) l.store.grants)
  pub balanced : (row : GrantRow) → In row l.store.grants → Balanced l.uses row
  pub known : (u : Use) → In u l.uses → In u.grant_id (map (λ r. r.grant.id) l.store.grants)

module _ (host : Host) where
  pub data Step (l : Ledger) : Ledger → Type 0 where
    creates :
        (request : NormalizedCapabilityRequest) (created_at : String) (r : RequestRecord)
        (store : Store)
        → create_request host request created_at l.store ≡ some (r, store)
        → Step l (record l { store = store })
    restores :
        (request : NormalizedCapabilityRequest) (created_at decision_id reason : String)
        (r : Option RequestRecord) (store : Store)
        → restore_escalated_request host request created_at decision_id reason l.store
          ≡ some (r, store)
        → Step l (record l { store = store })
    grants :
        (authorization_uuid grant_uuid : String) (input : GrantInput) (g : CapabilityGrant)
        (store : Store)
        → grant host authorization_uuid grant_uuid input l.store ≡ some (g, store)
        → Step l (record l { store = store })
    denies :
        (uuid : String) (input : DenyInput) → Step l (record l { store = deny uuid input l.store })
    escalates :
        (request_id decision_id reason : String)
        → Step l (record l { store = escalate request_id decision_id reason l.store })
    authorizes :
        (uuid : String) (request : NormalizedCapabilityRequest) (a : Option Authorization)
        (created_at : String)
        → Step l (record l { store = insert_authorization uuid request a created_at l.store })
    consumes :
        (grant_id attempt_id : String) (bytes : ℕ) (at : String) (g : CapabilityGrant)
        (store : Store)
        → bytes ≤ 9007199254740991
        → consume_grant grant_id attempt_id bytes at l.store ≡ some (some g, store)
        → Step l (record {
          store = store;
          uses = record { grant_id = grant_id; bytes = bytes } ∷ l.uses;
        })
    refuses :
        (grant_id attempt_id : String) (bytes : ℕ) (at : String) (store : Store)
        → bytes ≤ 9007199254740991
        → consume_grant grant_id attempt_id bytes at l.store ≡ some (none, store)
        → Step l (record l { store = store })

  pub data Reach (l : Ledger) : Ledger → Type 0 where
    here : Reach l l
    next : {m n : Ledger} → Reach l m → Step m n → Reach l n
