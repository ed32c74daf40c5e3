-- ===== src/Resource/Permissions/Accounts/History.antt =====
-- The store of permissions over time: any sequence of its operations.
use metaclaw.Base.{ℕ, Option, none, some, String, List, ◌≡◌, refl, sym, arith}
use metaclaw.Host.{Host}
use metaclaw.Resource.{CapabilityGrant}
use metaclaw.Resource.Permissions.Rows.{GrantRow, Store}
use metaclaw.Resource.Permissions.{
  GrantInput, new_grant, insert_grant, insert_authorization, grant, deny, escalate,
}
use metaclaw.Resource.Permissions.Outcome.{Outcome, refused}
use metaclaw.Resource.Permissions.Accounts.{
  Ledger, empty, Accounted, Step, Reach, creates, restores, grants, denies, escalates, authorizes,
  consumes, refuses, here, next,
}
use metaclaw.Resource.Permissions.Outcome.{consume_grant-Outcome}
use metaclaw.Resource.Permissions.Accounts.Others.{
  same_grants-Accounted, insert_authorization-grants, create_request-grants,
  restore_escalated_request-grants,
}
use metaclaw.Resource.Permissions.Accounts.Grants.{insert_grant-Accounted}
use metaclaw.Resource.Permissions.Accounts.Uses.{Outcome-Accounted}

grant-Accounted :
    (host : Host) (authorization_uuid grant_uuid : String) (input : GrantInput) (l : Ledger)
    (g : CapabilityGrant) (store : Store)
    → grant host authorization_uuid grant_uuid input l.store ≡ some (g, store)
    → Accounted l
    → Accounted (record l { store = store })
unfolding grant new_grant
grant-Accounted host authorization_uuid grant_uuid input l g store h x =
    go (insert_grant (new_grant grant_uuid input) noted.grants) refl
  where
    noted : Store
    noted =
        insert_authorization authorization_uuid input.request input.authorization input.granted_at
          l.store

    same : noted.grants ≡ l.store.grants
    same =
        insert_authorization-grants authorization_uuid input.request input.authorization
          input.granted_at l.store

    go :
        (o : Option (List GrantRow))
        → insert_grant (new_grant grant_uuid input) noted.grants ≡ o
        → Accounted (record l { store = store })
    go none e = absurd (ground (arith, rw e at h))
    go (some rows) e =
        let y =
          insert_grant-Accounted l (new_grant grant_uuid input) rows refl refl (rw same at e) x in
        same_grants-Accounted (record l { store = record l.store { grants = rows } }) store
          (ground (arith, rw e at h)) y

Outcome-refused :
    (grant_id attempt_id : String) (bytes : ℕ) (at : String) (store after : Store)
    → Outcome grant_id attempt_id bytes at store none after
    → after ≡ store
Outcome-refused grant_id attempt_id bytes at store after (refused n) = refl

Step-Accounted : (host : Host) {l m : Ledger} → Step host l m → Accounted l → Accounted m
unfolding deny escalate
Step-Accounted host {l} (creates request at r store e) x =
    same_grants-Accounted l store (sym (create_request-grants host request at l.store store r e)) x
Step-Accounted host {l} (restores request at d reason r store e) x =
    same_grants-Accounted l store
      (sym (restore_escalated_request-grants host request at d reason l.store store r e)) x
Step-Accounted host {l} (grants a b input g store e) x =
    grant-Accounted host a b input l g store e x
Step-Accounted host {l} (denies uuid input) x =
    same_grants-Accounted l (deny uuid input l.store)
      (sym (
        insert_authorization-grants uuid input.request input.authorization input.denied_at l.store))
      x
Step-Accounted host {l} (escalates request d reason) x =
    same_grants-Accounted l (escalate request d reason l.store) refl x
Step-Accounted host {l} (authorizes uuid request a at) x =
    same_grants-Accounted l (insert_authorization uuid request a at l.store)
      (sym (insert_authorization-grants uuid request a at l.store)) x
Step-Accounted host {l} (consumes grant_id attempt_id bytes at g store safe e) x =
    let (answer, after, q, outcome) =
      consume_grant-Outcome grant_id attempt_id bytes at l.store x.ids safe in
    let same_answer : answer ≡ some g = ground (arith, e, q) in
    let same_store : after ≡ store = ground (arith, e, q) in
    Outcome-Accounted grant_id attempt_id bytes at l g store
      (rw (same_answer, same_store) at outcome) x
Step-Accounted host {l} (refuses grant_id attempt_id bytes at store safe e) x =
    let (answer, after, q, outcome) =
      consume_grant-Outcome grant_id attempt_id bytes at l.store x.ids safe in
    let same_answer : answer ≡ none = ground (arith, e, q) in
    let same_store : after ≡ store = ground (arith, e, q) in
    rw
      (Outcome-refused grant_id attempt_id bytes at l.store store
        (rw (same_answer, same_store) at outcome))
      x

Reach-keeps-Accounted : (host : Host) {l m : Ledger} → Reach host l m → Accounted l → Accounted m
Reach-keeps-Accounted host here x = x
Reach-keeps-Accounted host (next r s) x = Step-Accounted host s (Reach-keeps-Accounted host r x)

-- From the empty store, after any sequence of the operations on permissions: what a grant counts
-- as calls and bytes is exactly what its uses consumed, and never more than its limits; no two
-- grants have one id or one request, and every counted use is of a grant in the table.
pub Reach-Accounted : (host : Host) (l : Ledger) → Reach host empty l → Accounted l
Reach-Accounted host l r = Reach-keeps-Accounted host r (record {
  ids = tt;
  one_per_request = tt;
  balanced = λ row m. absurd m;
  known = λ u m. absurd m;
})
