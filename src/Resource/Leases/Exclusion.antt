-- ===== src/Resource/Leases/Exclusion.antt =====
-- No two attempts hold conflicting leases at a time, whatever is called in whatever order.
use metaclaw.Base.{
  ◌↔◌, ℕ, ◌+◌, Bool, true, false, not, Bool-cases, Option-cases, some_inj, Option, none, some,
  String, List, [], ◌∷◌, ◌++◌, map, filter, any, In, mem-map, mem-filter, mem-filter_of_mem,
  mem-append, mem-sort_by, ◌≡◌, ◌≢◌, refl, sym, ap, ◌∙◌, ◌⊎◌, inl, inr, arith, ◌==◌, eq_iff,
}
use metaclaw.Host.{Host}
use metaclaw.Resource.{ResourceClaim}
use metaclaw.Resource.Partition.{resource_claims_conflict, >>=-eq-some}
use metaclaw.Resource.Partition.Order.{resource_claims_conflict_comm}
use metaclaw.Resource.Key.{partition_canonical_key}
use metaclaw.Resource.Leases.Rows.{
  Lease, Wait, Store, ClaimInput, ClaimResult, claimed, conflict, claim_of, is_active, binary_le,
  binary_le_trans, any_m, filter_m,
}
use metaclaw.Resource.Leases.{
  clashes, conflicts_of, upsert_waits, find_active, insert_leases, new_lease, holds, others_of,
  own_of, conflicting, report_conflict, grant_claims, claim,
}

-- At the time `now`, active leases of different attempts do not conflict.
pub record Exclusive (host : Host) (now : String) (store : Store) : Type 0 where
  pub apart :
      (l m : Lease)
      → In l store.leases
      → In m store.leases
      → is_active now l ≡ true
      → is_active now m ≡ true
      → l.attempt_id ≢ m.attempt_id
      → resource_claims_conflict host (claim_of l) (claim_of m) ≡ some false

module _ {A : Type 0} (test : A → Option Bool) where
  any_m-false : (x : A) (xs : List A) → any_m test xs ≡ some false → In x xs → test x ≡ some false
  any_m-false x [] h m = absurd m
  any_m-false x (y ∷ ys) h (inl e) = rw e (ground arith)
  any_m-false x (y ∷ ys) h (inr m) = any_m-false x ys (ground arith) m

  filter_m-nil : (x : A) (xs : List A) → filter_m test xs ≡ some [] → In x xs → test x ≡ some false
  filter_m-nil x [] h m = absurd m
  filter_m-nil x (y ∷ ys) h (inl e) = rw e (ground arith)
  filter_m-nil x (y ∷ ys) h (inr m) = filter_m-nil x ys (ground arith) m

-- Active rows stay active backwards in time.
pub active-before :
    (now at : String) (l : Lease)
    → binary_le now at ≡ true
    → is_active at l ≡ true
    → is_active now l ≡ true
active-before now at l h a = ground (arith, binary_le_trans l.expires_at now at)

-- A change that wakes no row and keeps who holds what keeps the exclusion.
module _ (host : Host) (now : String) (f : Lease → Lease)
    (same_claim : (l : Lease) → claim_of (f l) ≡ claim_of l)
    (same_attempt : (l : Lease) → (f l).attempt_id ≡ l.attempt_id)
    (wakes_none : (l : Lease) → is_active now (f l) ≡ true → is_active now l ≡ true) where
  pub map-Exclusive :
      (store : Store) (waits : List Wait)
      → Exclusive host now store
      → Exclusive host now (record { leases = map f store.leases; waits = waits })
  map-Exclusive store waits x = record {
    apart = λ l m i j a b ne.
        let (l', i', e) = mem-map f l store.leases i in
        let (m', j', g) = mem-map f m store.leases j in
        rw (e, g, same_claim l', same_claim m')
          (x.apart l' m' i' j' (wakes_none l' (rw e at a)) (wakes_none m' (rw g at b))
            (λ q. ne (rw (e, g, same_attempt l', same_attempt m') q)));
  }

pub find_active_iff :
    (now : String) (l : Lease) (store : Store)
    → In l (find_active now store) ↔ (In l store.leases × (is_active now l ≡ true))
unfolding find_active
find_active_iff now l store =
    let sorted = mem-sort_by _ l (filter (is_active now) store.leases) in
    (
      λ m. mem-filter (is_active now) l store.leases (sorted.0 m),
      λ (m, a). sorted.1 (mem-filter_of_mem (is_active now) l store.leases m a),
    )

module _ (host : Host) (uuids : ℕ → String) (input : ClaimInput) where
  -- A row that a claim of the attempt gave.
  abbrev pub Fresh : List ResourceClaim → Lease → Type 0
  Fresh claims l =
      (l.attempt_id ≡ input.attempt_id) × ((c : ResourceClaim) × In c claims × (claim_of l ≡ c))

  pub insert_leases-Fresh :
      (n : ℕ) (claims : List ResourceClaim) (held table held' table' : List Lease)
      → insert_leases host uuids input n claims held table ≡ some (held', table')
      → (l : Lease) → In l table'
      → In l table ⊎ Fresh claims l
  unfolding insert_leases
  insert_leases-Fresh n [] held table held' table' h l m = inl (rw (ap (λ r. r.1) (some_inj h)) m)
  insert_leases-Fresh n (c ∷ cs) held table held' table' h l m =
      elim (Option-cases (partition_canonical_key host c.partition)) [
        | inl e ↦ absurd (ground arith)
        | inr (key, e) ↦ elim (Bool-cases (any (holds key c) held)) [
          | inl old ↦
              later_claim (insert_leases-Fresh n cs held table held' table' (ground arith) l m)
          | inr new ↦
              elim (Bool-cases
                (any (clashes host uuids input (new_lease host uuids input n c key)) table)) [
                  | inl clash ↦ absurd (ground arith)
                  | inr free ↦
                      let row = new_lease host uuids input n c key in
                      appended key (
                        insert_leases-Fresh (n + 1) cs (held ++ row ∷ []) (table ++ row ∷ []) held'
                          table' (ground arith) l m)
                ]
        ]
      ]
    where
      later_claim : In l table ⊎ Fresh cs l → In l table ⊎ Fresh (c ∷ cs) l
      later_claim (inl i) = inl i
      later_claim (inr (a, (d, i, e))) = inr (a, (d, inr i, e))

      appended :
          (key : String)
          → In l (table ++ new_lease host uuids input n c key ∷ []) ⊎ Fresh cs l
          → In l table ⊎ Fresh (c ∷ cs) l
      appended key (inr f) = later_claim (inr f)
      appended key (inl i) = elim (mem-append l table (new_lease host uuids input n c key ∷ []) i) [
        | inl old ↦ inl old
        | inr (inl e) ↦ inr (rw e refl, (c, inl refl, rw e refl))
        | inr (inr e) ↦ absurd e
      ]

  -- What a claim that meets no conflict is apart from.
  pub conflicting-nil :
      (store : Store) (l : Lease) (c : ResourceClaim)
      → conflicting host uuids input store ≡ some []
      → In l store.leases
      → is_active input.now l ≡ true
      → l.attempt_id ≢ input.attempt_id
      → In c input.claims
      → resource_claims_conflict host c (claim_of l) ≡ some false
  unfolding conflicting
  conflicting-nil store l c h i a ne j =
      let active = (find_active_iff input.now l store).1 (i, a) in
      let other =
        mem-filter_of_mem (λ x. not (x.attempt_id == input.attempt_id)) l
          (find_active input.now store) active
          (ground (arith, eq_iff l.attempt_id input.attempt_id)) in
      any_m-false (λ d. resource_claims_conflict host d (claim_of l)) c input.claims
        (filter_m-nil (λ x. any_m (λ d. resource_claims_conflict host d (claim_of x)) input.claims)
          l (others_of host uuids input store) h other)
        j

  pub report_conflict-leases :
      (conflicts : List Lease) (store store' : Store) (r : ClaimResult)
      → report_conflict host uuids input conflicts store ≡ some (r, store')
      → (store'.leases ≡ store.leases) × ((waits : List Wait) × (r ≡ conflict waits conflicts))
  unfolding report_conflict
  report_conflict-leases conflicts store store' r h =
      let (items, _, k) = >>=-eq-some (conflicts_of host uuids input conflicts input.claims) _ h in
      let (waits, _, e) = >>=-eq-some (upsert_waits host uuids input 0 items store.waits) _ k in
      (ground arith, (waits.0, ground arith))

  pub grant_claims-leases :
      (store store' : Store) (r : ClaimResult)
      → grant_claims host uuids input store ≡ some (r, store')
      → (held : List Lease) × (insert_leases host uuids input 0 input.claims
            (own_of host uuids input store)
            store.leases
          ≡ some (held, store'.leases))
        × (r ≡ claimed held)
  unfolding grant_claims
  grant_claims-leases store store' r h =
      let (done, e, k) =
        >>=-eq-some
          (insert_leases host uuids input 0 input.claims (own_of host uuids input store)
            store.leases)
          _ h in
      (done.0, ground arith, ground arith)

  granted-Exclusive :
      (store store' : Store) (held : List Lease)
      → Exclusive host input.now store
      → conflicting host uuids input store ≡ some []
      → insert_leases host uuids input 0 input.claims (own_of host uuids input store) store.leases
        ≡ some (held, store'.leases)
      → Exclusive host input.now store'
  granted-Exclusive store store' held x none_conflicts h = record {
    apart = λ l m i j a b ne. pair l m a b ne (origin l i) (origin m j);
  }
    where
      origin : (l : Lease) → In l store'.leases → In l store.leases ⊎ Fresh input.claims l
      origin l i =
          insert_leases-Fresh 0 input.claims (own_of host uuids input store) store.leases held
            store'.leases h l i

      pair :
          (l m : Lease)
          → is_active input.now l ≡ true
          → is_active input.now m ≡ true
          → l.attempt_id ≢ m.attempt_id
          → In l store.leases ⊎ Fresh input.claims l
          → In m store.leases ⊎ Fresh input.claims m
          → resource_claims_conflict host (claim_of l) (claim_of m) ≡ some false
      pair l m a b ne (inl i) (inl j) = x.apart l m i j a b ne
      pair l m a b ne (inr (own, (c, k, e))) (inl j) =
          rw e (conflicting-nil store m c none_conflicts j b (λ q. ne (own ∙ sym q)) k)
      pair l m a b ne (inl i) (inr (own, (c, k, e))) =
          resource_claims_conflict_comm host (claim_of l) (claim_of m)
          ∙ rw e (conflicting-nil store l c none_conflicts i a (λ q. ne (q ∙ sym own)) k)
      pair l m a b ne (inr (own, _)) (inr (own', _)) = absurd (ne (own ∙ sym own'))

  pub claim-Exclusive :
      (store store' : Store) (r : ClaimResult)
      → Exclusive host input.now store
      → claim host uuids input store ≡ some (r, store')
      → Exclusive host input.now store'
  unfolding claim
  claim-Exclusive store store' r x h = go (conflicting host uuids input store) refl
    where
      go :
          (o : Option (List Lease))
          → conflicting host uuids input store ≡ o
          → Exclusive host input.now store'
      go none e = absurd (ground arith)
      go (some (l ∷ ls)) e =
          let (same_leases, _) = report_conflict-leases (l ∷ ls) store store' r (ground arith) in
          record { apart = rw same_leases x.apart }
      go (some []) e =
          let (held, k, _) = grant_claims-leases store store' r (ground arith) in
          granted-Exclusive store store' held x e k
