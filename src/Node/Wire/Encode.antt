-- ===== src/Node/Wire/Encode.antt =====
-- capsuleToProto, specToProto and replicaStatesToProto of capsule/orbit/announcement.go. `seconds_of`
-- is `int32(d.Seconds())`, which goes through a float.
use falak.Prelude.{List, map, some}
use falak.Prelude.Int.{ℤ}
use falak.Capsule.Store.{Capsule, ReplicaState}
use falak.Spec.Records.{CapsuleSpec, ScalingRule, PlacementRule}
use falak.Node.Wire.Messages.{
  ScalingRuleMessage, PlacementRuleMessage, SpecMessage, ReplicaMessage, CapsuleMessage,
}

unfoldable pub placement_rule_to_proto : PlacementRule → PlacementRuleMessage
placement_rule_to_proto r = record {
  name = r.name;
  kind = r.kind;
  mode = r.mode;
  target_names = r.names;
  labels = r.labels;
  required = r.required;
}

unfoldable pub replica_to_proto : ReplicaState → ReplicaMessage
replica_to_proto r = record {
  replica_id = r.replica_id;
  node_id = r.node_id;
  status = r.status;
  started_at = some r.started_at;
}

unfoldable pub replica_states_to_proto : List ReplicaState → List ReplicaMessage
unfolding replica_to_proto
replica_states_to_proto rs = map replica_to_proto rs

module _ (seconds_of : ℤ → ℤ) where
  unfoldable pub rule_to_proto : ScalingRule → ScalingRuleMessage
  rule_to_proto r = record {
    name = r.name;
    trigger = r.trigger;
    conditions = r.conditions;
    action = r.action;
    cooldown_seconds = seconds_of r.cooldown;
  }

  unfoldable pub spec_to_proto : CapsuleSpec → SpecMessage
  unfolding rule_to_proto placement_rule_to_proto
  spec_to_proto s = record {
    name = s.name;
    image = s.image;
    image_digest = s.image_digest;
    orbit = s.orbit;
    tier = s.tier;
    labels = s.labels;
    resources = some (record {
      cpu_cores = s.resources.cpu_cores;
      memory_mb = s.resources.memory_mb;
      disk_mb = s.resources.disk_mb;
    });
    replicas = some s.replicas;
    env = some s.runtime.env;
    momentum_config = some (record {
      base = s.momentum_config.base;
      boost_on_traffic = s.momentum_config.boost_on_traffic;
      reduce_on_idle = s.momentum_config.reduce_on_idle;
      idle_timeout_seconds = seconds_of s.momentum_config.idle_timeout;
    });
    scaling_rules = map rule_to_proto s.scaling_rules;
    placement_rules = map placement_rule_to_proto s.placement_rules;
  }

  unfoldable pub capsule_to_proto : Capsule → CapsuleMessage
  unfolding spec_to_proto replica_states_to_proto
  capsule_to_proto c = record {
    id = c.id;
    cluster_id = c.cluster_id;
    spec = some (spec_to_proto c.spec);
    status = c.status;
    replicas = replica_states_to_proto c.replicas;
    version = c.version;
    created_at = some c.created_at;
    updated_at = some c.updated_at;
    momentum = some (record {
      current = c.momentum.current;
      base = c.momentum.base;
      last_adjusted = some c.momentum.last_adjusted;
    });
  }
