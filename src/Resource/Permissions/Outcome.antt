-- ===== src/Resource/Permissions/Outcome.antt =====
-- What one use of a grant does.
use metaclaw.Base.{
  map-agree, map-same, find_of_only, filter-one, filter-only, same_by_key, ℕ, ◌≤◌, true, false,
  if◌then◌else◌, Bool-cases, Option, none, some, eqb, ltb, ◌==◌, String, List, map, filter, find,
  length, In, Distinct, mem-map_of_mem, mem-map, ◌≡◌, ◌∙◌, refl, sym, inl, inr, arith, eq_iff,
}
use metaclaw.Resource.{CapabilityGrant}
use metaclaw.Resource.Permissions.Rows.{GrantRow, Store, usable, used, spend}
use metaclaw.Resource.Permissions.{consume_grant}

-- No two grants have one id.
abbrev pub DistinctIds : List GrantRow → Type 0
DistinctIds rows = Distinct (map (λ r. r.grant.id) rows)

-- The use is counted for the one grant with the id, which is usable; or no grant is usable, and
-- nothing changes.
pub data Outcome (grant_id attempt_id : String) (bytes : ℕ) (at : String) (store : Store)
    : Option CapabilityGrant → Store → Type 0 where
  spent :
      (row : GrantRow)
      → In row store.grants
      → usable grant_id attempt_id bytes at row.grant ≡ true
      → Outcome grant_id attempt_id bytes at store (some (used bytes row.grant)) (record store {
        grants = map (λ r. if r.grant.id == grant_id then spend bytes r else r) store.grants;
      })
  refused :
      ((row : GrantRow)
        → In row store.grants
        → usable grant_id attempt_id bytes at row.grant ≡ false)
      → Outcome grant_id attempt_id bytes at store none store

pub usable-id :
    (grant_id attempt_id : String) (bytes : ℕ) (at : String) (g : CapabilityGrant)
    → usable grant_id attempt_id bytes at g ≡ true
    → g.id ≡ grant_id
unfolding usable
usable-id grant_id attempt_id bytes at g h = (eq_iff g.id grant_id).0 (ground arith)

module _ (grant_id attempt_id : String) (bytes : ℕ) (at : String) (rows : List GrantRow)
    (d : DistinctIds rows) where
  module _ (row : GrantRow) (m : In row rows)
      (h : usable grant_id attempt_id bytes at row.grant ≡ true) where
    only : (r : GrantRow) → In r rows → (r.grant.id == grant_id) ≡ true → r ≡ row
    only r i e =
        same_by_key (λ r. r.grant.id) rows r row d i m
          ((eq_iff r.grant.id grant_id).0 e
            ∙ sym (usable-id grant_id attempt_id bytes at row.grant h))

    spent_rows :
        map (λ r. if usable grant_id attempt_id bytes at r.grant then spend bytes r else r) rows
        ≡ map (λ r. if r.grant.id == grant_id then spend bytes r else r) rows
    spent_rows = map-agree _ _ rows agree
      where
        agree :
            (r : GrantRow)
            → In r rows
            → (if usable grant_id attempt_id bytes at r.grant then spend bytes r else r)
              ≡ (if r.grant.id == grant_id then spend bytes r else r)
        agree r i = elim (Bool-cases (r.grant.id == grant_id)) [
          | inl e ↦ rw (e, only r i e, h) refl
          | inr e ↦ elim (Bool-cases (usable grant_id attempt_id bytes at r.grant)) [
            | inl q ↦ absurd (
                ground (
                  arith,
                  usable-id grant_id attempt_id bytes at r.grant q,
                  eq_iff r.grant.id grant_id,
                ))
            | inr q ↦ rw (e, q) refl
          ]
        ]

    found_row :
        find
          (λ r. r.grant.id == grant_id)
          (map (λ r. if r.grant.id == grant_id then spend bytes r else r) rows)
        ≡ some (spend bytes row)
    found_row = find_of_only (λ r. r.grant.id == grant_id) (spend bytes row) _ member is_it alone
      where
        its_id : (row.grant.id == grant_id) ≡ true
        its_id =
            (eq_iff row.grant.id grant_id).1 (usable-id grant_id attempt_id bytes at row.grant h)

        is_it : ((spend bytes row).grant.id == grant_id) ≡ true
        is_it = its_id

        member :
            In
              (spend bytes row)
              (map (λ r. if r.grant.id == grant_id then spend bytes r else r) rows)
        member =
            rw its_id at
              (mem-map_of_mem (λ r. if r.grant.id == grant_id then spend bytes r else r) row rows m)

        alone :
            (y : GrantRow)
            → In y (map (λ r. if r.grant.id == grant_id then spend bytes r else r) rows)
            → (y.grant.id == grant_id) ≡ true
            → y ≡ spend bytes row
        alone y i e =
            let (r, j, p) =
              mem-map (λ r. if r.grant.id == grant_id then spend bytes r else r) y rows i in
            elim (Bool-cases (r.grant.id == grant_id)) [
              | inl q ↦ (rw (q, only r j q) at p)
              | inr q ↦ absurd (ground (arith, rw (rw q at p, q) at e))
            ]

    one_row : length (filter (λ r. usable grant_id attempt_id bytes at r.grant) rows) ≡ 1
    one_row =
        filter-only (λ r. usable grant_id attempt_id bytes at r.grant) (λ r. r.grant.id) row rows m
          h d
          (λ r i q.
            usable-id grant_id attempt_id bytes at r.grant q
            ∙ sym (usable-id grant_id attempt_id bytes at row.grant h))

pub consume_grant-Outcome :
    (grant_id attempt_id : String) (bytes : ℕ) (at : String) (store : Store)
    → DistinctIds store.grants
    → bytes ≤ 9007199254740991
    → (answer : Option CapabilityGrant) × (after : Store) × (consume_grant grant_id attempt_id bytes
          at store
        ≡ some (answer, after))
      × Outcome grant_id attempt_id bytes at store answer after
unfolding consume_grant
consume_grant-Outcome grant_id attempt_id bytes at store d safe =
    elim (Bool-cases
      (eqb (length (filter (λ r. usable grant_id attempt_id bytes at r.grant) store.grants)) 1)) [
        | inl one ↦
            let (row, m, h) =
              filter-one (λ r. usable grant_id attempt_id bytes at r.grant) store.grants one in
            (
              some (used bytes row.grant),
              record store {
                grants =
                    map (λ r. if r.grant.id == grant_id then spend bytes r else r) store.grants;
              },
              rw
                  (
                    in_range,
                    one,
                    spent_rows grant_id attempt_id bytes at store.grants d row m h,
                    found_row grant_id attempt_id bytes at store.grants d row m h,
                  )
                  refl,
              spent row m h,
            )
        | inr other ↦
            (none, store, rw (in_range, other, unspent other) refl, refused (nobody other))
      ]
  where
    in_range : ltb 9007199254740991 bytes ≡ false
    in_range = ground arith

    nobody :
        eqb (length (filter (λ r. usable grant_id attempt_id bytes at r.grant) store.grants)) 1
          ≡ false
        → (row : GrantRow) → In row store.grants
        → usable grant_id attempt_id bytes at row.grant ≡ false
    nobody other row m = elim (Bool-cases (usable grant_id attempt_id bytes at row.grant)) [
      | inr h ↦ h
      | inl h ↦
          absurd
            (ground (arith, other, one_row grant_id attempt_id bytes at store.grants d row m h))
    ]

    unspent :
        eqb (length (filter (λ r. usable grant_id attempt_id bytes at r.grant) store.grants)) 1
          ≡ false
        → map
            (λ r. if usable grant_id attempt_id bytes at r.grant then spend bytes r else r)
            store.grants
          ≡ store.grants
    unspent other = map-same _ store.grants (λ r m. rw (nobody other r m) refl)
