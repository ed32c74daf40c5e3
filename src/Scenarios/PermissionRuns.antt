-- ===== src/Scenarios/PermissionRuns.antt =====
-- A grant of two calls, of which one is used.
use metaclaw.Base.{refl, none, some, [], ◌∷◌, trim, any_char, split, arith}
use metaclaw.Resource.{
  NormalizedCapabilityRequest, CapabilityGrant, network_target, once, workspace_engineering, path,
}
use metaclaw.Resource.Key.{partition_canonical_key}
use metaclaw.Resource.Permissions.Rows.{Store, approve, command, used}
use metaclaw.Resource.Permissions.{create_request, consume_grant, GrantInput, grant, new_grant}
use metaclaw.Resource.Permissions.Outcome.{Outcome}
use metaclaw.Resource.Permissions.Accounts.{
  empty, Accounted, Reach, here, next, creates, grants, consumes,
}
use metaclaw.Resource.Permissions.Accounts.History.{Reach-Accounted}
use metaclaw.Resource.Leases.Rows.{binary_le}
use metaclaw.Scenarios.{host}

abbrev asked : NormalizedCapabilityRequest
asked = record {
  capability = network_target;
  resource = "api.example.org";
  operation = "fetch";
  reason = "read the documentation";
  suggested_scope = once;
  id = "r1";
  fingerprint = "f1";
  task_id = "t1";
  generation_id = "g1";
  subtask_id = "a";
  attempt_id = "x1";
  agent_class_name = "codex";
  permission_profile_id = workspace_engineering;
  partition = path "net" "api";
  distinct_request_ordinal = 1;
}

abbrev approved : GrantInput
approved = record {
  decision_id = "d1";
  request = asked;
  limits = record { expires_at = "09"; max_calls = 2; max_bytes = 100 };
  granted_at = "02";
  authorization = some (record {
    resolution = approve;
    source = command;
    planner_plan_id = none;
    received_event_id = "e1";
  });
}

abbrev given : CapabilityGrant
given = (new_grant "1" approved).grant

-- The stores after the request, the grant and the use.
abbrev requested : Store
unfolding create_request partition_canonical_key trim any_char split
requested = elim (create_request host asked "01" empty.store) [ none ↦ empty.store | some r ↦ r.1 ]

abbrev granted_store : Store
unfolding grant create_request partition_canonical_key trim any_char split
granted_store = elim (grant host "1" "1" approved requested) [ none ↦ requested | some r ↦ r.1 ]

abbrev used_store : Store
unfolding grant create_request consume_grant partition_canonical_key trim any_char split binary_le
used_store = elim (consume_grant "permission_grant_1" "x1" 40 "03" granted_store) [
  | none ↦ granted_store
  | some r ↦ r.1
]

ledger_run : Reach host empty (record {
  store = used_store;
  uses = record { grant_id = "permission_grant_1"; bytes = 40 } ∷ [];
})
unfolding grant create_request consume_grant partition_canonical_key trim any_char split new_grant
    binary_le
ledger_run =
    next
      (next (next here (creates asked "01" _ requested refl))
        (grants "1" "1" approved given granted_store refl))
      (consumes "permission_grant_1" "x1" 40 "03" (used 40 given) used_store (ground arith) refl)

Reach-Accounted_example : Accounted (record {
  store = used_store;
  uses = record { grant_id = "permission_grant_1"; bytes = 40 } ∷ [];
})
Reach-Accounted_example =
    Reach-Accounted host
      (record {
        store = used_store;
        uses = record { grant_id = "permission_grant_1"; bytes = 40 } ∷ [];
      })
      ledger_run
