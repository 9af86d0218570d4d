-- ===== src/Node/Wire/Messages.antt =====
-- The messages of capsule/proto/capsule.proto, with the fields that the conversions write or read.
-- An enum is its text on both sides.
use falak.Prelude.{ℕ, Bool, List, Option, String}
use falak.Prelude.Int.{ℤ}
use falak.Capsule.Types.{
  CapsuleStatus, Tier, ScalingAction, TriggerMode, PlacementType, PlacementMode,
}
use falak.Capsule.Labels.{Labels}
use falak.Spec.Records.{ReplicaConfig}

pub record ResourcesMessage : Type 0 where
  pub cpu_cores : ℤ
  pub memory_mb : ℤ
  pub disk_mb : ℤ

pub record ScalingRuleMessage : Type 0 where
  pub name : String
  pub trigger : TriggerMode
  pub conditions : List String
  pub action : ScalingAction
  pub cooldown_seconds : ℤ

pub record PlacementRuleMessage : Type 0 where
  pub name : String
  pub kind : PlacementType
  pub mode : PlacementMode
  pub target_names : List String
  pub labels : Labels
  pub required : Bool

pub record MomentumConfigMessage : Type 0 where
  pub base : ℤ
  pub boost_on_traffic : Bool
  pub reduce_on_idle : Bool
  pub idle_timeout_seconds : ℤ

pub record SpecMessage : Type 0 where
  pub name : String
  pub image : String
  pub image_digest : String
  pub orbit : String
  pub tier : Tier
  pub labels : Labels
  pub resources : Option ResourcesMessage
  pub replicas : Option ReplicaConfig
  pub env : Option Labels
  pub momentum_config : Option MomentumConfigMessage
  pub scaling_rules : List ScalingRuleMessage
  pub placement_rules : List PlacementRuleMessage

pub record ReplicaMessage : Type 0 where
  pub replica_id : String
  pub node_id : String
  pub status : CapsuleStatus
  pub started_at : Option ℕ

pub record MomentumMessage : Type 0 where
  pub current : ℤ
  pub base : ℤ
  pub last_adjusted : Option ℕ

pub record CapsuleMessage : Type 0 where
  pub id : String
  pub cluster_id : String
  pub spec : Option SpecMessage
  pub status : CapsuleStatus
  pub replicas : List ReplicaMessage
  pub version : String
  pub created_at : Option ℕ
  pub updated_at : Option ℕ
  pub momentum : Option MomentumMessage
