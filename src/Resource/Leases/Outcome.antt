-- ===== src/Resource/Leases/Outcome.antt =====
-- What the two results of a claim say.
use metaclaw.Base.{
  mem-filter, if◌then◌else◌, ℕ, Bool, true, false, ◌&&◌, not, Option-cases, Option, none, some,
  some_inj, String, List, [], ◌∷◌, In, ◌≡◌, ◌≢◌, refl, ◌⊎◌, inl, inr, arith, ◌==◌, eq_iff,
}
use metaclaw.Host.{Host}
use metaclaw.Resource.{ResourceClaim}
use metaclaw.Resource.Partition.{resource_claims_conflict}
use metaclaw.Resource.Key.{partition_canonical_key}
use metaclaw.Resource.Leases.Rows.{
  Lease, Store, ClaimInput, ClaimResult, claimed, conflict, claim_of, is_active, any_m, filter_m,
}
use metaclaw.Resource.Leases.{find_active, holds, others_of, own_of, conflicting, claim}
use metaclaw.Resource.Leases.Exclusion.{
  find_active_iff, conflicting-nil, report_conflict-leases, grant_claims-leases,
}
use metaclaw.Resource.Leases.Insertion.{insert_leases-Inserted}

module _ {A : Type 0} (test : A → Option Bool) where
  any_m-true : (xs : List A) → any_m test xs ≡ some true → (x : A) × In x xs × (test x ≡ some true)
  any_m-true [] h = cc
  any_m-true (y ∷ ys) h = elim (Option-cases (test y)) [
    | inl e ↦ absurd (ground arith)
    | inr (true, e) ↦ (y, inl refl, e)
    | inr (false, e) ↦ let (x, m, q) = any_m-true ys (ground arith) in (x, inr m, q)
  ]

  mem-filter_m :
      (x : A) (xs kept : List A)
      → filter_m test xs ≡ some kept
      → In x kept
      → In x xs × (test x ≡ some true)
  mem-filter_m x [] kept h m = absurd (rw (← some_inj h) at m)
  mem-filter_m x (y ∷ ys) kept h m = elim (Option-cases (test y)) [
    | inl e ↦ absurd (ground arith)
    | inr (b, e) ↦ elim (Option-cases (filter_m test ys)) [
      | inl g ↦ absurd (ground arith)
      | inr (rest, g) ↦
          let k : kept ≡ (if b then y ∷ rest else rest) = ground arith in
          chosen b rest e (mem-filter_m x ys rest g) (rw k at m)
    ]
  ]
    where
      chosen :
          (b : Bool) (rest : List A)
          → test y ≡ some b
          → (In x rest → In x ys × (test x ≡ some true))
          → In x (if b then y ∷ rest else rest)
          → In x (y ∷ ys) × (test x ≡ some true)
      chosen true rest e ih (inl q) = (inl q, rw q e)
      chosen true rest e ih (inr n) = let (i, k) = ih n in (inr i, k)
      chosen false rest e ih n = let (i, k) = ih n in (inr i, k)

module _ (host : Host) (uuids : ℕ → String) (input : ClaimInput) where
  conflicting-Conflicts :
      (store : Store) (conflicts : List Lease)
      → conflicting host uuids input store ≡ some conflicts
      → (l : Lease) → In l conflicts
      → In l store.leases
        × (is_active input.now l ≡ true)
        × (l.attempt_id ≢ input.attempt_id)
        × ((c : ResourceClaim) × In c input.claims
            × (resource_claims_conflict host c (claim_of l) ≡ some true))
  unfolding conflicting
  conflicting-Conflicts store conflicts h l m =
      let test =
        λ (x : Lease). any_m (λ c. resource_claims_conflict host c (claim_of x)) input.claims in
      let (other, hit) = mem-filter_m test l (others_of host uuids input store) conflicts h m in
      let (sorted, far) =
        mem-filter (λ x. not (x.attempt_id == input.attempt_id)) l (find_active input.now store)
          other in
      let (row, active) = (find_active_iff input.now l store).0 sorted in
      (
        row,
        active,
        λ q. ground (arith, eq_iff l.attempt_id input.attempt_id),
        any_m-true (λ c. resource_claims_conflict host c (claim_of l)) input.claims hit,
      )

  given-own :
      (store store' : Store)
      → ((l : Lease) → In l store.leases → In l store'.leases)
      → (l : Lease)
      → In l (own_of host uuids input store)
        ⊎ ((l.attempt_id ≡ input.attempt_id)
            × (l.lease_token ≡ input.lease_token)
            × In l store'.leases)
      → (l.attempt_id ≡ input.attempt_id) × (l.lease_token ≡ input.lease_token) × In l store'.leases
  given-own store store' stays l (inr g) = g
  given-own store store' stays l (inl m) =
      let (sorted, own) =
        mem-filter (λ x. x.attempt_id == input.attempt_id && x.lease_token == input.lease_token) l
          (find_active input.now store) m in
      let (row, active) = (find_active_iff input.now l store).0 sorted in
      (
        ground (arith, eq_iff l.attempt_id input.attempt_id),
        ground (arith, eq_iff l.lease_token input.lease_token),
        stays l row,
      )

  -- The two results.
  abbrev pub Outcome : Store → Store → ClaimResult → Type 0
  Outcome store store' (claimed held) =
      ((l : Lease) (c : ResourceClaim)
        → In l store.leases
        → is_active input.now l ≡ true
        → l.attempt_id ≢ input.attempt_id
        → In c input.claims
        → resource_claims_conflict host c (claim_of l) ≡ some false)
      × ((c : ResourceClaim)
          → In c input.claims
          → (key : String) × (l : Lease) × (partition_canonical_key host c.partition ≡ some key)
            × In l held
            × (holds key c l ≡ true))
      × ((l : Lease)
          → In l held
          → (l.attempt_id ≡ input.attempt_id)
            × (l.lease_token ≡ input.lease_token)
            × In l store'.leases)
      × ((l : Lease) → In l store.leases → In l store'.leases)
  Outcome store store' (conflict waits conflicts) =
      (store'.leases ≡ store.leases)
      × (conflicts ≢ [])
      × ((l : Lease)
          → In l conflicts
          → In l store.leases
            × (is_active input.now l ≡ true)
            × (l.attempt_id ≢ input.attempt_id)
            × ((c : ResourceClaim) × In c input.claims
                × (resource_claims_conflict host c (claim_of l) ≡ some true)))

  -- A claim that succeeds conflicts with no active lease of another attempt, holds for every
  -- claim a lease with its key and access, under the attempt and the token of the claim and in
  -- the table, and removes no row. A claim that meets a conflict leaves the leases as they are
  -- and returns at least one lease, each an active one of another attempt that conflicts with
  -- some claim.
  pub claim-Outcome :
      (store store' : Store) (r : ClaimResult)
      → claim host uuids input store ≡ some (r, store')
      → Outcome store store' r
  unfolding claim
  claim-Outcome store store' r h = go (conflicting host uuids input store) refl
    where
      go :
          (o : Option (List Lease))
          → conflicting host uuids input store ≡ o
          → Outcome store store' r
      go none e = absurd (ground arith)
      go (some (l ∷ ls)) e =
          let (same_leases, (waits, q)) =
            report_conflict-leases host uuids input (l ∷ ls) store store' r (ground arith) in
          rw q (same_leases, λ z. cc, conflicting-Conflicts store (l ∷ ls) e)
      go (some []) e =
          let (held, k, q) = grant_claims-leases host uuids input store store' r (ground arith) in
          let i =
            insert_leases-Inserted host uuids input 0 input.claims (own_of host uuids input store)
              store.leases held store'.leases k in
          rw q (
            λ l c m a ne j. conflicting-nil host uuids input store l c e m a ne j,
            i.covers,
            λ l m. given-own store store' i.stays l (i.gives l m),
            i.stays,
          )
