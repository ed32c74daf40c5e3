-- ===== src/Resource/Permissions/Accounts/Others.antt =====
-- The operations that leave the grants as they are.
use metaclaw.Base.{Option, none, some, String, ◌≡◌, refl, arith}
use metaclaw.Host.{Host}
use metaclaw.Resource.{NormalizedCapabilityRequest}
use metaclaw.Resource.Permissions.Rows.{RequestRecord, Store, Authorization}
use metaclaw.Resource.Permissions.{create_request, restore_escalated_request, insert_authorization}
use metaclaw.Resource.Permissions.Accounts.{Ledger, Accounted}

-- The other tables and columns do not matter.
pub same_grants-Accounted :
    (l : Ledger) (store : Store)
    → l.store.grants ≡ store.grants
    → Accounted l
    → Accounted (record l { store = store })
same_grants-Accounted l store e x = record {
  ids = rw e at x.ids;
  one_per_request = rw e at x.one_per_request;
  balanced = rw e at x.balanced;
  known = rw e at x.known;
}

pub insert_authorization-grants :
    (uuid : String) (request : NormalizedCapabilityRequest) (a : Option Authorization)
    (created_at : String) (store : Store)
    → (insert_authorization uuid request a created_at store).grants ≡ store.grants
unfolding insert_authorization
insert_authorization-grants uuid request none created_at store = refl
insert_authorization-grants uuid request (some a) created_at store = ground arith

pub create_request-grants :
    (host : Host) (request : NormalizedCapabilityRequest) (created_at : String)
    (store after : Store) (r : RequestRecord)
    → create_request host request created_at store ≡ some (r, after)
    → after.grants ≡ store.grants
unfolding create_request
create_request-grants host request created_at store after r h = ground arith

pub restore_escalated_request-grants :
    (host : Host) (request : NormalizedCapabilityRequest) (created_at decision_id reason : String)
    (store after : Store) (r : Option RequestRecord)
    → restore_escalated_request host request created_at decision_id reason store ≡ some (r, after)
    → after.grants ≡ store.grants
unfolding restore_escalated_request
restore_escalated_request-grants host request created_at decision_id reason store after r h =
    go (create_request host request created_at store) refl
  where
    go :
        (o : Option (RequestRecord × Store))
        → create_request host request created_at store ≡ o
        → after.grants ≡ store.grants
    go none e = absurd (ground (arith, rw e at h))
    go (some (c, s)) e =
        let same = create_request-grants host request created_at store s c e in
        ground (arith, same, rw e at h)
