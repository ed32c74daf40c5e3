-- ===== src/Resource/Permissions/Accounts/Grants.antt =====
-- A new grant has no uses.
use metaclaw.Base.{
  snoc-Distinct, false, Bool-cases, some, ◌==◌, String, List, [], ◌∷◌, ◌++◌, map, any, any_of_mem,
  In, mem-append, mem-append_left, mem-map_of_mem, mem-map, ◌≡◌, ◌≢◌, ◌∙◌, refl, sym, inl, inr,
  arith, eq_iff,
}
use metaclaw.Resource.Permissions.Rows.{GrantRow}
use metaclaw.Resource.Permissions.{insert_grant}
use metaclaw.Resource.Permissions.Accounts.{Use, calls_of, bytes_of, Ledger, Accounted}

not_any-key :
    (key : GrantRow → String) (k : String) (rows : List GrantRow)
    → any (λ r. key r == k) rows ≡ false
    → ¬ In k (map key rows)
not_any-key key k rows h m =
    let (r, i, e) = mem-map key k rows m in
    let q = any_of_mem (λ r. key r == k) r rows i ((eq_iff (key r) k).1 (sym e)) in
    absurd (ground (arith, q, h))

calls_of-none :
    (id : String) (us : List Use) → ((u : Use) → In u us → u.grant_id ≢ id) → calls_of id us ≡ 0
unfolding calls_of
calls_of-none id [] h = refl
calls_of-none id (u ∷ us) h =
    let rest = calls_of-none id us (λ v m. h v (inr m)) in
    ground (arith, rest, h u (inl refl), eq_iff u.grant_id id)

bytes_of-none :
    (id : String) (us : List Use) → ((u : Use) → In u us → u.grant_id ≢ id) → bytes_of id us ≡ 0
unfolding bytes_of
bytes_of-none id [] h = refl
bytes_of-none id (u ∷ us) h =
    let rest = bytes_of-none id us (λ v m. h v (inr m)) in
    ground (arith, rest, h u (inl refl), eq_iff u.grant_id id)

pub insert_grant-Accounted :
    (l : Ledger) (row : GrantRow) (rows : List GrantRow)
    → row.grant.calls_used ≡ 0
    → row.grant.bytes_used ≡ 0
    → insert_grant row l.store.grants ≡ some rows
    → Accounted l
    → Accounted (record l { store = record l.store { grants = rows } })
unfolding insert_grant
insert_grant-Accounted l row rows no_calls no_bytes h x =
    elim (Bool-cases (any (λ r. r.grant.request_id == row.grant.request_id) l.store.grants)) [
      | inl old ↦ let same : l.store.grants ≡ rows = ground (arith, rw old at h) in rw (← same) x
      | inr new ↦ elim (Bool-cases (any (λ r. r.grant.id == row.grant.id) l.store.grants)) [
        | inl taken ↦ absurd (ground (arith, rw (new, taken) at h))
        | inr free ↦
            let same : (l.store.grants ++ row ∷ []) ≡ rows = ground (arith, rw (new, free) at h) in
            rw (← same) (added new free)
      ]
    ]
  where
    added :
        any (λ r. r.grant.request_id == row.grant.request_id) l.store.grants ≡ false
        → any (λ r. r.grant.id == row.grant.id) l.store.grants ≡ false
        → Accounted (record l { store = record l.store { grants = l.store.grants ++ row ∷ [] } })
    added new free =
        let fresh = not_any-key (λ r. r.grant.id) row.grant.id l.store.grants free in
        let unused : (u : Use) → In u l.uses → u.grant_id ≢ row.grant.id =
          λ u m e. fresh (rw e at (x.known u m)) in
        record {
          ids = snoc-Distinct (λ r. r.grant.id) row l.store.grants fresh x.ids;
          one_per_request =
              snoc-Distinct (λ r. r.grant.request_id) row l.store.grants
                (not_any-key (λ r. r.grant.request_id) row.grant.request_id l.store.grants new)
                x.one_per_request;
          balanced = λ r m. elim (mem-append r l.store.grants (row ∷ []) m) [
            | inl i ↦ x.balanced r i
            | inr j ↦ elim j [
              | inl e ↦ rw e (record {
                calls = no_calls ∙ sym (calls_of-none row.grant.id l.uses unused);
                bytes = no_bytes ∙ sym (bytes_of-none row.grant.id l.uses unused);
                calls_fit = ground (arith, no_calls);
                bytes_fit = ground (arith, no_bytes);
              })
              | inr k ↦ absurd k
            ]
          ];
          known = λ u m.
              let (r, i, e) = mem-map (λ r. r.grant.id) u.grant_id l.store.grants (x.known u m) in
              rw e (
                mem-map_of_mem (λ r. r.grant.id) r (l.store.grants ++ row ∷ [])
                  (mem-append_left r l.store.grants (row ∷ []) i));
        }
