-- ===== src/Spec/Samples.antt =====
-- Test data: specifications and rules of capsule/capsule.go.
use falak.Prelude.{false, [], ◌∷◌, none}
use falak.Prelude.Int.{pos}
use falak.Capsule.Types.{critical, any_of, scale_up, node, near}
use falak.Spec.Records.{CapsuleSpec, PlacementRule, ScalingRule, ReplicaConfig, bridge}

abbrev pub soft_rule : PlacementRule
soft_rule = record {
  name = "near-gpu";
  kind = node;
  mode = near;
  names = "gpu-1" ∷ [];
  labels = ("zone", "a") ∷ [];
  required = false;
}

abbrev pub scale_rule : ScalingRule
scale_rule = record {
  name = "cpu";
  trigger = any_of;
  conditions = "cpu > 80" ∷ [];
  action = scale_up;
  cooldown = pos 0;
}

abbrev pub two_to_four : ReplicaConfig
two_to_four = record { min_count = pos 2; max_count = pos 4; exact = pos 0 }

abbrev pub web_spec : CapsuleSpec
web_spec = record {
  name = "web";
  image = "web:1";
  image_alias = "";
  image_digest = "";
  orbit = "edge";
  tier = critical;
  labels = ("app", "web") ∷ [];
  resources = record {
    cpu_cores = pos 1;
    cpu_cores_max = pos 0;
    memory_mb = pos 256;
    memory_mb_max = pos 0;
    disk_mb = pos 0;
  };
  replicas = two_to_four;
  scaling_rules = scale_rule ∷ [];
  placement_rules = soft_rule ∷ [];
  runtime = record {
    env = [];
    network = record { mode = bridge; ports = [] };
    health_check = none;
    failure_policy = record {
      restart_limit = pos 0;
      max_node_attempts = pos 0;
      graceful_timeout = pos 0;
    };
    log_retention = record { max_file_size_mb = pos 0; max_files = pos 0 };
    stats_interval = pos 0;
    registry = none;
    snapshot_config = record { max_per_capsule = pos 0; ttl = pos 0 };
  };
  momentum_config = record {
    base = pos 0;
    boost_on_traffic = false;
    reduce_on_idle = false;
    idle_timeout = pos 0;
  };
  command = [];
}
