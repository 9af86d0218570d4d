-- ===== src/Spec/Records.antt =====
-- The specification records of capsule/capsule.go.
use falak.Prelude.{ℕ, Bool, List, Option, String, if◌then◌else◌}
use falak.Prelude.Int.{ℤ, pos, ltb_ℤ}
use falak.Capsule.Types.{Tier, ScalingAction, TriggerMode, PlacementType, PlacementMode}
use falak.Capsule.Labels.{Labels}

pub record ResourceRequirements : Type 0 where
  pub cpu_cores : ℤ
  pub cpu_cores_max : ℤ
  pub memory_mb : ℤ
  pub memory_mb_max : ℤ
  pub disk_mb : ℤ

pub effective_cpu_max : ResourceRequirements → ℤ
effective_cpu_max r = if ltb_ℤ (pos 0) r.cpu_cores_max then r.cpu_cores_max else r.cpu_cores

pub effective_memory_max : ResourceRequirements → ℤ
effective_memory_max r = if ltb_ℤ (pos 0) r.memory_mb_max then r.memory_mb_max else r.memory_mb

pub record ReplicaConfig : Type 0 where
  pub min_count : ℤ
  pub max_count : ℤ
  pub exact : ℤ

pub record ScalingRule : Type 0 where
  pub name : String
  pub trigger : TriggerMode
  pub conditions : List String
  pub action : ScalingAction
  pub cooldown : ℤ

pub record PlacementRule : Type 0 where
  pub name : String
  pub kind : PlacementType
  pub mode : PlacementMode
  pub names : List String
  pub labels : Labels
  pub required : Bool

pub data NetworkMode : Type 0 where
  bridge host : NetworkMode
  other_network : String → NetworkMode

pub record PortMapping : Type 0 where
  pub name : String
  pub container_port : ℕ
  pub host_port : ℕ
  pub protocol : String

pub record NetworkConfig : Type 0 where
  pub mode : NetworkMode
  pub ports : List PortMapping

pub data HealthCheckType : Type 0 where
  http tcp : HealthCheckType
  other_check : String → HealthCheckType

pub record HealthCheck : Type 0 where
  pub kind : HealthCheckType
  pub path : String
  pub port : ℕ
  pub interval : ℤ
  pub timeout : ℤ
  pub retries : ℤ
  pub initial_delay : ℤ

pub record RegistryAuth : Type 0 where
  pub url : String
  pub username_encrypted : List ℕ
  pub password_encrypted : List ℕ

pub record FailurePolicy : Type 0 where
  pub restart_limit : ℤ
  pub max_node_attempts : ℤ
  pub graceful_timeout : ℤ

pub record LogRetention : Type 0 where
  pub max_file_size_mb : ℤ
  pub max_files : ℤ

pub record SnapshotConfig : Type 0 where
  pub max_per_capsule : ℤ
  pub ttl : ℤ

pub record RuntimeConfig : Type 0 where
  pub env : Labels
  pub network : NetworkConfig
  pub health_check : Option HealthCheck
  pub failure_policy : FailurePolicy
  pub log_retention : LogRetention
  pub stats_interval : ℤ
  pub registry : Option RegistryAuth
  pub snapshot_config : SnapshotConfig

pub record MomentumConfig : Type 0 where
  pub base : ℤ
  pub boost_on_traffic : Bool
  pub reduce_on_idle : Bool
  pub idle_timeout : ℤ

pub record CapsuleSpec : Type 0 where
  pub name : String
  pub image : String
  pub image_alias : String
  pub image_digest : String
  pub orbit : String
  pub tier : Tier
  pub labels : Labels
  pub resources : ResourceRequirements
  pub replicas : ReplicaConfig
  pub scaling_rules : List ScalingRule
  pub placement_rules : List PlacementRule
  pub runtime : RuntimeConfig
  pub momentum_config : MomentumConfig
  pub command : List String
