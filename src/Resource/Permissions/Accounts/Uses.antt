-- ===== src/Resource/Permissions/Accounts/Uses.antt =====
-- A use that is counted keeps the accounts.
use metaclaw.Base.{
  same_by_key, map-keeps, ℕ, true, false, if◌then◌else◌, Bool-cases, some, ◌==◌, String, List, ◌∷◌,
  In, mem-map_of_mem, mem-map, ◌≡◌, ◌∙◌, sym, inl, inr, arith, eq_iff,
}
use metaclaw.Resource.{CapabilityGrant}
use metaclaw.Resource.Permissions.Rows.{GrantRow, Store, usable, spend}
use metaclaw.Resource.Permissions.Outcome.{usable-id, Outcome, spent}
use metaclaw.Resource.Permissions.Accounts.{Use, calls_of, bytes_of, Ledger, Balanced, Accounted}

module _ (grant_id attempt_id : String) (bytes : ℕ) (at : String) where
  spend_it : GrantRow → GrantRow
  spend_it r = if r.grant.id == grant_id then spend bytes r else r

  spent-Balanced :
      (uses : List Use) (r : GrantRow)
      → usable grant_id attempt_id bytes at r.grant ≡ true
      → Balanced uses r
      → Balanced (record { grant_id = grant_id; bytes = bytes } ∷ uses) (spend bytes r)
  unfolding calls_of bytes_of usable
  spent-Balanced uses r h b =
      let same =
        (eq_iff grant_id r.grant.id).1 (sym (usable-id grant_id attempt_id bytes at r.grant h)) in
      record {
        calls = rw same (ground (arith, b.calls));
        bytes = rw same (ground (arith, b.bytes));
        calls_fit = ground (arith);
        bytes_fit = ground (arith);
      }

  other-Balanced :
      (uses : List Use) (r : GrantRow)
      → (r.grant.id == grant_id) ≡ false
      → Balanced uses r
      → Balanced (record { grant_id = grant_id; bytes = bytes } ∷ uses) r
  unfolding calls_of bytes_of
  other-Balanced uses r h b =
      let differs : (grant_id == r.grant.id) ≡ false =
        ground (arith, eq_iff r.grant.id grant_id, eq_iff grant_id r.grant.id) in
      record {
        calls = ground (arith, b.calls, differs);
        bytes = ground (arith, b.bytes, differs);
        calls_fit = b.calls_fit;
        bytes_fit = b.bytes_fit;
      }

  pub Outcome-Accounted :
      (l : Ledger) (g : CapabilityGrant) (store : Store)
      → Outcome grant_id attempt_id bytes at l.store (some g) store
      → Accounted l
      → Accounted
          (record { store = store; uses = record { grant_id = grant_id; bytes = bytes } ∷ l.uses })
  unfolding spend_it
  Outcome-Accounted l g store (spent row m h) x = record {
    ids = rw (map-keeps (λ r. r.grant.id) spend_it l.store.grants keeps_id) x.ids;
    one_per_request =
        rw (map-keeps (λ r. r.grant.request_id) spend_it l.store.grants keeps_request)
          x.one_per_request;
    balanced =
        λ y i. let (r, j, e) = mem-map spend_it y l.store.grants i in rw e (balanced_row r j);
    known = λ u i. rw (map-keeps (λ r. r.grant.id) spend_it l.store.grants keeps_id) (elim i [
      | inl new ↦
          rw (new, ← usable-id grant_id attempt_id bytes at row.grant h)
            (mem-map_of_mem (λ r. r.grant.id) row l.store.grants m)
      | inr old ↦ x.known u old
    ]);
  }
    where
      keeps_id : (r : GrantRow) → (spend_it r).grant.id ≡ r.grant.id
      keeps_id r = ground arith

      keeps_request : (r : GrantRow) → (spend_it r).grant.request_id ≡ r.grant.request_id
      keeps_request r = ground arith

      balanced_row :
          (r : GrantRow)
          → In r l.store.grants
          → Balanced (record { grant_id = grant_id; bytes = bytes } ∷ l.uses) (spend_it r)
      balanced_row r j = elim (Bool-cases (r.grant.id == grant_id)) [
        | inr q ↦ rw q (other-Balanced l.uses r q (x.balanced r j))
        | inl q ↦
            let same =
              same_by_key (λ r. r.grant.id) l.store.grants r row x.ids j m
                ((eq_iff r.grant.id grant_id).0 q
                  ∙ sym (usable-id grant_id attempt_id bytes at row.grant h)) in
            rw q (spent-Balanced l.uses r (rw same h) (x.balanced r j))
      ]
