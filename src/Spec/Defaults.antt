-- ===== src/Spec/Defaults.antt =====
-- `DefaultSpec` of capsule/spec.go: each field that is zero gets its default.
pub mod Stable
use falak.Prelude.{
  ℕ, ◌*◌, Bool, true, false, ◌&&◌, Option, none, some, String, map, ◌==◌, string_eq, if◌then◌else◌,
}
use falak.Prelude.Int.{ℤ, pos, eqb_ℤ}
use falak.Capsule.Types.{
  Tier, standard, tier_empty, base_momentum, TriggerMode, all_of, trigger_empty,
}
use falak.Spec.Records.{
  ReplicaConfig, ScalingRule, PlacementRule, NetworkMode, bridge, other_network, NetworkConfig,
  HealthCheck, FailurePolicy, LogRetention, SnapshotConfig, RuntimeConfig, MomentumConfig,
  CapsuleSpec,
}

abbrev pub seconds : ℕ → ℤ
seconds n = pos (n * 1_000_000_000)

-- `if x == 0 { x = d }`.
abbrev pub or_zero : ℤ → ℤ → ℤ
or_zero x d = if eqb_ℤ x (pos 0) then d else x

abbrev pub network_empty : NetworkMode → Bool
network_empty (other_network s) = s == ""
network_empty _ = false

pub default_placement_rule : PlacementRule → PlacementRule
default_placement_rule rule = record rule {
  required = if rule.required then rule.required else true;
}

pub default_scaling_rule : ScalingRule → ScalingRule
default_scaling_rule rule = record rule {
  trigger = if trigger_empty rule.trigger then all_of else rule.trigger;
  cooldown = or_zero rule.cooldown (seconds 60);
}

pub default_replicas : ReplicaConfig → ReplicaConfig
default_replicas r =
    if eqb_ℤ r.exact (pos 0) && (eqb_ℤ r.min_count (pos 0) && eqb_ℤ r.max_count (pos 0))
    then record r { min_count = pos 1; max_count = pos 1 }
    else r

pub default_health_check : Option HealthCheck → Option HealthCheck
default_health_check none = none
default_health_check (some h) = some (record h {
  interval = or_zero h.interval (seconds 10);
  timeout = or_zero h.timeout (seconds 3);
  retries = or_zero h.retries (pos 3);
  initial_delay = or_zero h.initial_delay (seconds 5);
})

pub default_failure_policy : FailurePolicy → FailurePolicy
default_failure_policy p = record {
  restart_limit = or_zero p.restart_limit (pos 3);
  max_node_attempts = or_zero p.max_node_attempts (pos 3);
  graceful_timeout = or_zero p.graceful_timeout (seconds 10);
}

pub default_log_retention : LogRetention → LogRetention
default_log_retention l = record {
  max_file_size_mb = or_zero l.max_file_size_mb (pos 10);
  max_files = or_zero l.max_files (pos 10);
}

pub default_snapshot_config : SnapshotConfig → SnapshotConfig
default_snapshot_config c = record {
  max_per_capsule = or_zero c.max_per_capsule (pos 3);
  ttl = or_zero c.ttl (seconds 259_200);
}

pub default_network : NetworkConfig → NetworkConfig
default_network n = record n { mode = if network_empty n.mode then bridge else n.mode }

pub default_runtime : RuntimeConfig → RuntimeConfig
default_runtime r = record r {
  network = default_network r.network;
  health_check = default_health_check r.health_check;
  failure_policy = default_failure_policy r.failure_policy;
  log_retention = default_log_retention r.log_retention;
  stats_interval = or_zero r.stats_interval (seconds 5);
  snapshot_config = default_snapshot_config r.snapshot_config;
}

abbrev pub default_tier : Tier → Tier
default_tier t = if tier_empty t then standard else t

pub default_momentum : Tier → MomentumConfig → MomentumConfig
default_momentum t m = record m { base = or_zero m.base (base_momentum t) }

pub default_spec : CapsuleSpec → CapsuleSpec
default_spec spec = record spec {
  tier = default_tier spec.tier;
  replicas = default_replicas spec.replicas;
  scaling_rules = map default_scaling_rule spec.scaling_rules;
  placement_rules = map default_placement_rule spec.placement_rules;
  runtime = default_runtime spec.runtime;
  momentum_config = default_momentum (default_tier spec.tier) spec.momentum_config;
}
