-- ===== src/Resource.antt =====
-- Resource claims and permissions: the data of src/resource/types.ts.
pub mod Partition
pub mod Key
pub mod Leases
pub mod Permissions
pub mod Policy
use mathlib.Core.Bool.{decide}
use metaclaw.Base.{ℕ, Bool, Option, String, List}

pub data AccessMode : Type 0 where
  read write : AccessMode

pub data PartitionIdentity : Type 0 where
  repository : (repository_id : String) → PartitionIdentity
  worktree : (repository_id workspace_id : String) → PartitionIdentity
  path : (mount_id normalized_relative_path : String) → PartitionIdentity
  logical : (namespace key : String) → PartitionIdentity
  external_object : (provider account collection object_id : String) → PartitionIdentity

pub record ResourceClaim : Type 0 where
  pub partition : PartitionIdentity
  pub access : AccessMode

pub data PermissionProfileId : Type 0 where
  workspace_engineering public_web_research restricted_custom : PermissionProfileId

pub data ControlledCapability : Type 0 where
  additional_read_resource network_target sealed_secret external_object_operation
        repository_promotion logical_resource_operation :
      ControlledCapability

ControlledCapability-discrete : Discrete ControlledCapability
ControlledCapability-discrete = hlevel

-- `a === b`
unfoldable pub same_capability : ControlledCapability → ControlledCapability → Bool
unfolding ControlledCapability-discrete
same_capability a b = decide (ControlledCapability-discrete a b)

pub data CapabilityScope : Type 0 where
  once attempt : CapabilityScope

pub record NormalizedCapabilityRequest : Type 0 where
  pub capability : ControlledCapability
  pub resource : String
  pub operation : String
  pub reason : String
  pub suggested_scope : CapabilityScope
  pub id : String
  pub fingerprint : String
  pub task_id : String
  pub generation_id : String
  pub subtask_id : String
  pub attempt_id : String
  pub agent_class_name : String
  pub permission_profile_id : PermissionProfileId
  pub partition : PartitionIdentity
  pub distinct_request_ordinal : ℕ

pub record CapabilityGrantLimits : Type 0 where
  pub expires_at : String
  pub max_calls : ℕ
  pub max_bytes : ℕ

pub record CapabilityGrant : Type 0 where
  pub id : String
  pub request_id : String
  pub fingerprint : String
  pub task_id : String
  pub subtask_id : String
  pub attempt_id : String
  pub capability : ControlledCapability
  pub partition : PartitionIdentity
  pub operation : String
  pub scope : CapabilityScope
  pub limits : CapabilityGrantLimits
  pub calls_used : ℕ
  pub bytes_used : ℕ
  pub revoked_at : Option String

pub data Effect : Type 0 where
  allow deny escalate : Effect

-- The capability of a rule: `none` is the wildcard `*`.
pub record PermissionRule : Type 0 where
  pub id : String
  pub effect : Effect
  pub capability : Option ControlledCapability
  pub operation : String
  pub partition : Option PartitionIdentity
  pub reason : String

pub data PermissionDecision : Type 0 where
  grant_capability : (rule_id reason : String) (limits : CapabilityGrantLimits) → PermissionDecision
  deny_capability : (rule_id : Option String) (reason : String) → PermissionDecision
  escalate_capability : (rule_id : Option String) (reason : String) → PermissionDecision
