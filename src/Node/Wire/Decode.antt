-- ===== src/Node/Wire/Decode.antt =====
-- protoToCapsule and protoToSpec of node/capsule_handler.go. A missing time is 0.
use falak.Prelude.{ℕ, suc, ◌-◌, ◌*◌, false, [], map, Option, none, some}
use falak.Prelude.Int.{ℤ, pos, negsuc}
use falak.Capsule.Types.{other_tier}
use falak.Capsule.Labels.{Labels}
use falak.Capsule.Store.{Capsule, ReplicaState, MomentumState}
use falak.Spec.Records.{
  CapsuleSpec, ResourceRequirements, ReplicaConfig, ScalingRule, PlacementRule, RuntimeConfig,
  MomentumConfig, other_network,
}
use falak.Node.Wire.Messages.{
  ResourcesMessage, ScalingRuleMessage, PlacementRuleMessage, MomentumConfigMessage, SpecMessage,
  ReplicaMessage, MomentumMessage, CapsuleMessage,
}

-- A number of seconds as a duration in nanoseconds.
unfoldable pub seconds : ℤ → ℤ
seconds (pos n) = pos (n * 1000000000)
seconds (negsuc n) = negsuc (suc n * 1000000000 - 1)

unfoldable pub time_of : Option ℕ → ℕ
time_of none = 0
time_of (some t) = t

-- The zero values of Go.
abbrev pub no_resources : ResourceRequirements
no_resources = record {
  cpu_cores = pos 0;
  cpu_cores_max = pos 0;
  memory_mb = pos 0;
  memory_mb_max = pos 0;
  disk_mb = pos 0;
}

abbrev pub no_replicas : ReplicaConfig
no_replicas = record { min_count = pos 0; max_count = pos 0; exact = pos 0 }

abbrev pub no_runtime : RuntimeConfig
no_runtime = record {
  env = [];
  network = record { mode = other_network ""; ports = [] };
  health_check = none;
  failure_policy = record {
    restart_limit = pos 0;
    max_node_attempts = pos 0;
    graceful_timeout = pos 0;
  };
  log_retention = record { max_file_size_mb = pos 0; max_files = pos 0 };
  stats_interval = pos 0;
  registry = none;
  snapshot_config = record { max_per_capsule = pos 0; ttl = pos 0 };
}

abbrev pub no_momentum_config : MomentumConfig
no_momentum_config = record {
  base = pos 0;
  boost_on_traffic = false;
  reduce_on_idle = false;
  idle_timeout = pos 0;
}

abbrev pub no_momentum : MomentumState
no_momentum = record { current = pos 0; base = pos 0; last_adjusted = 0 }

unfoldable pub proto_to_resources : Option ResourcesMessage → ResourceRequirements
proto_to_resources none = no_resources
proto_to_resources (some m) = record no_resources {
  cpu_cores = m.cpu_cores;
  memory_mb = m.memory_mb;
  disk_mb = m.disk_mb;
}

unfoldable pub proto_to_replicas : Option ReplicaConfig → ReplicaConfig
proto_to_replicas none = no_replicas
proto_to_replicas (some r) = r

unfoldable pub proto_to_runtime : Option Labels → RuntimeConfig
proto_to_runtime none = no_runtime
proto_to_runtime (some env) = record no_runtime { env = env }

unfoldable pub proto_to_momentum_config : Option MomentumConfigMessage → MomentumConfig
unfolding seconds
proto_to_momentum_config none = no_momentum_config
proto_to_momentum_config (some m) = record {
  base = m.base;
  boost_on_traffic = m.boost_on_traffic;
  reduce_on_idle = m.reduce_on_idle;
  idle_timeout = seconds m.idle_timeout_seconds;
}

unfoldable pub proto_to_rule : ScalingRuleMessage → ScalingRule
unfolding seconds
proto_to_rule m = record {
  name = m.name;
  trigger = m.trigger;
  conditions = m.conditions;
  action = m.action;
  cooldown = seconds m.cooldown_seconds;
}

unfoldable pub proto_to_placement_rule : PlacementRuleMessage → PlacementRule
proto_to_placement_rule m = record {
  name = m.name;
  kind = m.kind;
  mode = m.mode;
  names = m.target_names;
  labels = m.labels;
  required = m.required;
}

-- The tier of a spec that is missing is the empty text.
abbrev no_spec : CapsuleSpec
no_spec = record {
  name = "";
  image = "";
  image_alias = "";
  image_digest = "";
  orbit = "";
  tier = other_tier "";
  labels = [];
  resources = no_resources;
  replicas = no_replicas;
  scaling_rules = [];
  placement_rules = [];
  runtime = no_runtime;
  momentum_config = no_momentum_config;
  command = [];
}

unfoldable pub proto_to_spec : SpecMessage → CapsuleSpec
unfolding proto_to_resources proto_to_replicas proto_to_runtime proto_to_momentum_config
    proto_to_rule proto_to_placement_rule
proto_to_spec m = record no_spec {
  name = m.name;
  image = m.image;
  image_digest = m.image_digest;
  orbit = m.orbit;
  tier = m.tier;
  labels = m.labels;
  resources = proto_to_resources m.resources;
  replicas = proto_to_replicas m.replicas;
  runtime = proto_to_runtime m.env;
  momentum_config = proto_to_momentum_config m.momentum_config;
  scaling_rules = map proto_to_rule m.scaling_rules;
  placement_rules = map proto_to_placement_rule m.placement_rules;
}

unfoldable pub proto_to_momentum : Option MomentumMessage → MomentumState
unfolding time_of
proto_to_momentum none = no_momentum
proto_to_momentum (some m) = record {
  current = m.current;
  base = m.base;
  last_adjusted = time_of m.last_adjusted;
}

unfoldable pub proto_to_replica : ReplicaMessage → ReplicaState
unfolding time_of
proto_to_replica m = record {
  replica_id = m.replica_id;
  node_id = m.node_id;
  status = m.status;
  started_at = time_of m.started_at;
}

unfoldable pub proto_to_capsule : Option CapsuleMessage → Option Capsule
unfolding proto_to_spec proto_to_momentum proto_to_replica time_of
proto_to_capsule none = none
proto_to_capsule (some m) = some (record {
  id = m.id;
  cluster_id = m.cluster_id;
  spec = elim m.spec [ none ↦ no_spec | some s ↦ proto_to_spec s ];
  status = m.status;
  replicas = map proto_to_replica m.replicas;
  momentum = proto_to_momentum m.momentum;
  version = m.version;
  created_at = time_of m.created_at;
  updated_at = time_of m.updated_at;
})
