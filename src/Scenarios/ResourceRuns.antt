-- ===== src/Scenarios/ResourceRuns.antt =====
-- Runs of the partitions and of the permission policy.
use mathlib.Core.Bool.{decide}
use metaclaw.Base.{
  show_nat, text_length, any_char, includes, join, split, trim, ◌≡◌, refl, true, false, none, some,
  [], ◌∷◌,
}
use metaclaw.Resource.{
  same_capability, PartitionIdentity, path, logical, ResourceClaim, read, write,
  NormalizedCapabilityRequest, network_target, once, workspace_engineering, PermissionRule, allow,
  CapabilityGrantLimits, grant_capability,
}
use metaclaw.Resource.Partition.{
  normalize_partition_identity, partition_covers, resource_claims_conflict,
}
use metaclaw.Resource.Partition.Order.{
  partition_covers_trans, partition_covers_refl, resource_claims_conflict_comm,
}
use metaclaw.Resource.Policy.{hard_denial, EvaluationInput, evaluate_capability_request}
use metaclaw.Resource.Policy.Safety.{MayGrant, evaluate-MayGrant}
use metaclaw.Scenarios.{host}

abbrev src : PartitionIdentity
src = path "repo" "src"

abbrev kernel : PartitionIdentity
kernel = path "repo" "./src/kernel"

abbrev file : PartitionIdentity
file = path "repo" "src/kernel/a.ts"

wide_run : partition_covers host src kernel ≡ some true
unfolding partition_covers trim any_char split join
wide_run = refl

narrow_run : partition_covers host kernel file ≡ some true
unfolding partition_covers trim any_char split join
narrow_run = refl

reverse_run : partition_covers host file kernel ≡ some false
unfolding partition_covers trim any_char split join
reverse_run = refl

partition_covers_trans_example : partition_covers host src file ≡ some true
partition_covers_trans_example = partition_covers_trans host src kernel file wide_run narrow_run

kernel_normal : normalize_partition_identity host kernel ≡ some (path "repo" "src/kernel")
unfolding normalize_partition_identity trim any_char split join
kernel_normal = refl

partition_covers_refl_example : partition_covers host kernel kernel ≡ some true
partition_covers_refl_example =
    partition_covers_refl host kernel (path "repo" "src/kernel") kernel_normal

abbrev reads : ResourceClaim
reads = record { partition = src; access = read }

abbrev writes : ResourceClaim
writes = record { partition = file; access = write }

conflict_run : resource_claims_conflict host reads writes ≡ some true
unfolding resource_claims_conflict trim any_char split join
conflict_run = refl

resource_claims_conflict_comm_example :
    resource_claims_conflict host reads writes ≡ resource_claims_conflict host writes reads
resource_claims_conflict_comm_example = resource_claims_conflict_comm host reads writes

abbrev request : NormalizedCapabilityRequest
request = record {
  capability = network_target;
  resource = "api.example.org";
  operation = "fetch";
  reason = "read the documentation";
  suggested_scope = once;
  id = "r1";
  fingerprint = "f1";
  task_id = "t1";
  generation_id = "g1";
  subtask_id = "a";
  attempt_id = "x1";
  agent_class_name = "codex";
  permission_profile_id = workspace_engineering;
  partition = logical "net" "api.example.org";
  distinct_request_ordinal = 1;
}

abbrev rule : PermissionRule
rule = record {
  id = "net";
  effect = allow;
  capability = some network_target;
  operation = "fetch";
  partition = some (logical "net" "*");
  reason = "documentation";
}

abbrev input : EvaluationInput
input = record {
  request = request;
  rules = rule ∷ [];
  now = "now";
  previously_denied_fingerprints = [];
  user_authorization_fingerprints = [];
  max_distinct_requests = none;
}

abbrev limits : CapabilityGrantLimits
limits = record { expires_at = "900003"; max_calls = 100; max_bytes = 104857600 }

grant_run :
    evaluate_capability_request host input ≡ some (grant_capability "net" "documentation" limits)
unfolding evaluate_capability_request hard_denial includes trim same_capability decide
    partition_covers any_char split join show_nat text_length
grant_run = refl

evaluate-MayGrant_example : MayGrant host input
evaluate-MayGrant_example = evaluate-MayGrant host input "net" "documentation" limits grant_run
