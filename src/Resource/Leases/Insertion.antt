-- ===== src/Resource/Leases/Insertion.antt =====
-- The loop that gives the leases of a claim.
use metaclaw.Base.{
  ℕ, ◌+◌, true, Bool-cases, Option-cases, some, String, List, [], ◌∷◌, ◌++◌, any, any-mem, In,
  mem-append, mem-append_left, mem-append_right, ◌≡◌, refl, ◌⊎◌, inl, inr, arith, eq_refl,
}
use metaclaw.Host.{Host}
use metaclaw.Resource.{ResourceClaim, AccessMode, read, write}
use metaclaw.Resource.Key.{partition_canonical_key}
use metaclaw.Resource.Leases.Rows.{Lease, ClaimInput, same_access}
use metaclaw.Resource.Leases.{clashes, insert_leases, new_lease, holds}

holds_self :
    (key : String) (c : ResourceClaim) (l : Lease)
    → l.partition_key ≡ key
    → l.access ≡ c.access
    → holds key c l ≡ true
holds_self key c l e g = rw (e, eq_refl key, g) (same_access_refl c.access)
  where
    same_access_refl : (a : AccessMode) → same_access a a ≡ true
    same_access_refl read = refl
    same_access_refl write = refl

-- The rows that a claim holds in the end, over those that it held.
pub record Inserted (host : Host) (input : ClaimInput) (claims : List ResourceClaim)
    (held table held' table' : List Lease) : Type 0 where
  pub stays : (l : Lease) → In l table → In l table'
  pub keeps : (l : Lease) → In l held → In l held'
  pub covers :
      (c : ResourceClaim)
      → In c claims
      → (key : String) × (l : Lease) × (partition_canonical_key host c.partition ≡ some key)
        × In l held'
        × (holds key c l ≡ true)
  pub gives :
      (l : Lease)
      → In l held'
      → In l held
        ⊎ ((l.attempt_id ≡ input.attempt_id) × (l.lease_token ≡ input.lease_token) × In l table')

module _ (host : Host) (uuids : ℕ → String) (input : ClaimInput) where
  module _ (c : ResourceClaim) (cs : List ResourceClaim) (key : String)
      (held table held' table' : List Lease)
      (keyed : partition_canonical_key host c.partition ≡ some key) where
    Inserted-old :
        any (holds key c) held ≡ true
        → Inserted host input cs held table held' table'
        → Inserted host input (c ∷ cs) held table held' table'
    Inserted-old old i = record {
      stays = i.stays;
      keeps = i.keeps;
      covers = λ d m. elim m [
        | inl same ↦
            let (l, n, q) = any-mem (holds key c) held old in
            (key, l, rw same keyed, i.keeps l n, rw same q)
        | inr n ↦ i.covers d n
      ];
      gives = i.gives;
    }

    Inserted-new :
        (n : ℕ)
        → Inserted host input cs
            (held ++ new_lease host uuids input n c key ∷ [])
            (table ++ new_lease host uuids input n c key ∷ [])
            held'
            table'
        → Inserted host input (c ∷ cs) held table held' table'
    unfolding new_lease
    Inserted-new n i = record {
      stays = λ l m. i.stays l (mem-append_left l table (row ∷ []) m);
      keeps = λ l m. i.keeps l (mem-append_left l held (row ∷ []) m);
      covers = λ d m. elim m [
        | inl same ↦ (
          key,
          row,
          rw same keyed,
          i.keeps row (mem-append_right row held (row ∷ []) (inl refl)),
          rw same (holds_self key c row refl refl),
        )
        | inr k ↦ i.covers d k
      ];
      gives = λ l m. given l (i.gives l m);
    }
      where
        row : Lease
        row = new_lease host uuids input n c key

        given :
            (l : Lease)
            → In l (held ++ row ∷ [])
              ⊎ ((l.attempt_id ≡ input.attempt_id)
                  × (l.lease_token ≡ input.lease_token)
                  × In l table')
            → In l held
              ⊎ ((l.attempt_id ≡ input.attempt_id)
                  × (l.lease_token ≡ input.lease_token)
                  × In l table')
        given l (inr g) = inr g
        given l (inl m) = elim (mem-append l held (row ∷ []) m) [
          | inl old ↦ inl old
          | inr (inl e) ↦ inr (
            rw e refl,
            rw e refl,
            rw e (i.stays row (mem-append_right row table (row ∷ []) (inl refl))),
          )
          | inr (inr z) ↦ absurd z
        ]

  pub insert_leases-Inserted :
      (n : ℕ) (claims : List ResourceClaim) (held table held' table' : List Lease)
      → insert_leases host uuids input n claims held table ≡ some (held', table')
      → Inserted host input claims held table held' table'
  unfolding insert_leases
  insert_leases-Inserted n [] held table held' table' h =
      let e : held' ≡ held = ground arith in
      let f : table' ≡ table = ground arith in
      record {
        stays = λ l m. rw f m;
        keeps = λ l m. rw e m;
        covers = λ c m. absurd m;
        gives = λ l m. inl (rw e at m);
      }
  insert_leases-Inserted n (c ∷ cs) held table held' table' h =
      elim (Option-cases (partition_canonical_key host c.partition)) [
        | inl e ↦ absurd (ground arith)
        | inr (key, e) ↦ elim (Bool-cases (any (holds key c) held)) [
          | inl old ↦
              Inserted-old c cs key held table held' table' e old
                (insert_leases-Inserted n cs held table held' table' (ground arith))
          | inr new ↦
              elim (Bool-cases
                (any (clashes host uuids input (new_lease host uuids input n c key)) table)) [
                  | inl clash ↦ absurd (ground arith)
                  | inr free ↦ Inserted-new c cs key held table held' table' e n (
                      insert_leases-Inserted (n + 1) cs
                        (held ++ new_lease host uuids input n c key ∷ [])
                        (table ++ new_lease host uuids input n c key ∷ []) held' table'
                        (ground arith))
                ]
        ]
      ]
