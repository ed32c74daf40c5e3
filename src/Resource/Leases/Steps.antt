-- ===== src/Resource/Leases/Steps.antt =====
-- The store of leases over time: the calls of src/execution/resource-lease-service.ts in any order,
-- each at a time that is not before the last.
use metaclaw.Base.{ℕ, true, Option, some, String, List, [], map, ◌≡◌, arith}
use metaclaw.Host.{Host}
use metaclaw.Resource.Leases.Rows.{
  Lease, Store, ClaimInput, ClaimResult, claim_of, is_active, binary_le,
}
use metaclaw.Resource.Leases.{
  claim, heartbeat, release_attempt, release_reconciled_attempt, release_revoked_attempt,
  request_revocation, cancel_waits,
}
use metaclaw.Resource.Leases.Exclusion.{Exclusive, active-before, map-Exclusive, claim-Exclusive}

pub record Moment : Type 0 where
  pub now : String
  pub store : Store

abbrev pub empty : Store
empty = record { leases = []; waits = [] }

module _ (host : Host) where
  -- What may happen next.
  pub data Step (m : Moment) : Moment → Type 0 where
    wait : (now : String) → binary_le m.now now ≡ true → Step m (record m { now = now })
    claims :
        (uuids : ℕ → String) (input : ClaimInput) (r : ClaimResult) (store : Store)
        → binary_le m.now input.now ≡ true
        → claim host uuids input m.store ≡ some (r, store)
        → Step m (record { now = input.now; store = store })
    beats :
        (attempt_id lease_token now expires_at : String)
        → binary_le m.now now ≡ true
        → Step m (record {
          now = now;
          store = (heartbeat attempt_id lease_token now expires_at m.store).0;
        })
    releases :
        (attempt_id lease_token now : String)
        → binary_le m.now now ≡ true
        → Step m
            (record { now = now; store = (release_attempt attempt_id lease_token now m.store).0 })
    reconciles :
        (attempt_id now : String)
        → binary_le m.now now ≡ true
        → Step m
            (record { now = now; store = (release_reconciled_attempt attempt_id now m.store).0 })
    releases_revoked :
        (attempt_id now : String)
        → binary_le m.now now ≡ true
        → Step m (record { now = now; store = (release_revoked_attempt attempt_id now m.store).0 })
    revokes :
        (task_id : String) (generation_id : Option String) (subtask_ids : Option (List String))
        (reason now : String)
        → binary_le m.now now ≡ true
        → Step m (record {
          now = now;
          store = (request_revocation task_id generation_id subtask_ids reason now m.store).0;
        })
    cancels :
        (task_id : String) (generation_id : Option String) (subtask_ids : Option (List String))
        (now : String)
        → binary_le m.now now ≡ true
        → Step m (record {
          now = now;
          store = (cancel_waits task_id generation_id subtask_ids now m.store).0;
        })

  pub data Reach (m : Moment) : Moment → Type 0 where
    here : Reach m m
    next : {n o : Moment} → Reach m n → Step n o → Reach m o

  later-Exclusive :
      (now at : String) (store : Store)
      → binary_le now at ≡ true
      → Exclusive host now store
      → Exclusive host at store
  later-Exclusive now at store h x = record {
    apart = λ l m i j a b ne.
        x.apart l m i j (active-before now at l h a) (active-before now at m h b) ne;
  }

  -- A change of rows at a time that is not before the last.
  changed-Exclusive :
      (m : Moment) (now : String) (f : Lease → Lease)
      → ((l : Lease) → claim_of (f l) ≡ claim_of l)
      → ((l : Lease) → (f l).attempt_id ≡ l.attempt_id)
      → ((l : Lease) → is_active now (f l) ≡ true → is_active now l ≡ true)
      → binary_le m.now now ≡ true
      → Exclusive host m.now m.store
      → Exclusive host now (record { leases = map f m.store.leases; waits = m.store.waits })
  changed-Exclusive m now f same_claim same_attempt wakes_none h x =
      map-Exclusive host now f same_claim same_attempt wakes_none m.store m.store.waits
        (later-Exclusive m.now now m.store h x)

  Step-Exclusive :
      {m n : Moment} → Step m n → Exclusive host m.now m.store → Exclusive host n.now n.store
  unfolding heartbeat release_attempt release_reconciled_attempt release_revoked_attempt
      request_revocation cancel_waits
  Step-Exclusive {m} (wait now h) x = later-Exclusive m.now now m.store h x
  Step-Exclusive {m} (claims ids input r store h e) x =
      claim-Exclusive host ids input m.store store r (later-Exclusive m.now input.now m.store h x) e
  Step-Exclusive {m} (beats attempt token now until h) x =
      changed-Exclusive m now _ (λ l. ground arith) (λ l. ground arith) (λ l. ground arith) h x
  Step-Exclusive {m} (releases attempt token now h) x =
      changed-Exclusive m now _ (λ l. ground arith) (λ l. ground arith) (λ l. ground arith) h x
  Step-Exclusive {m} (reconciles attempt now h) x =
      changed-Exclusive m now _ (λ l. ground arith) (λ l. ground arith) (λ l. ground arith) h x
  Step-Exclusive {m} (releases_revoked attempt now h) x =
      changed-Exclusive m now _ (λ l. ground arith) (λ l. ground arith) (λ l. ground arith) h x
  Step-Exclusive {m} (revokes task generation subtasks reason now h) x =
      changed-Exclusive m now _ (λ l. ground arith) (λ l. ground arith) (λ l. ground arith) h x
  Step-Exclusive {m} (cancels task generation subtasks now h) x = record {
    apart = (later-Exclusive m.now now m.store h x).apart;
  }

  Reach-keeps-Exclusive :
      {m n : Moment} → Reach m n → Exclusive host m.now m.store → Exclusive host n.now n.store
  Reach-keeps-Exclusive here x = x
  Reach-keeps-Exclusive (next r s) x = Step-Exclusive s (Reach-keeps-Exclusive r x)

  -- From the empty store, after any sequence of claims, heartbeats, releases, revocations and
  -- cancelled waits whose times do not go backwards, no two leases that are active at the time
  -- and belong to different attempts conflict.
  pub Reach-Exclusive :
      (start : String) (m : Moment)
      → Reach (record { now = start; store = empty }) m
      → Exclusive host m.now m.store
  Reach-Exclusive start m r =
      Reach-keeps-Exclusive r (record { apart = λ l k i j a b ne. absurd i })
