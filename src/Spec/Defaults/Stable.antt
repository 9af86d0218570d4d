-- ===== src/Spec/Defaults/Stable.antt =====
-- What `DefaultSpec` of capsule/spec.go leaves behind.
use falak.Prelude.{◌≡◌, refl, true, List, [], ◌∷◌, Option, none, some, map, All, arith, string_eq}
use falak.Prelude.Int.{ℤ, pos}
use falak.Capsule.Types.{Tier}
use falak.Spec.Records.{
  ReplicaConfig, ScalingRule, PlacementRule, NetworkConfig, HealthCheck, RuntimeConfig,
  FailurePolicy, LogRetention, SnapshotConfig, MomentumConfig, CapsuleSpec,
}
use falak.Spec.Defaults.{
  seconds, or_zero, default_placement_rule, default_scaling_rule, default_replicas,
  default_health_check, default_failure_policy, default_log_retention, default_snapshot_config,
  default_network, default_runtime, default_tier, default_momentum, default_spec,
}

or_zero_twice : (x d : ℤ) → or_zero (or_zero x d) d ≡ or_zero x d
or_zero_twice x d = ground arith

placement_twice :
    (rules : List PlacementRule)
    → map default_placement_rule (map default_placement_rule rules)
      ≡ map default_placement_rule rules
unfolding default_placement_rule
placement_twice [] = refl
placement_twice (rule ∷ rules) = ground (arith, placement_twice rules)

scaling_rule_twice :
    (rule : ScalingRule)
    → default_scaling_rule (default_scaling_rule rule) ≡ default_scaling_rule rule
unfolding default_scaling_rule
scaling_rule_twice rule = ground arith

scaling_twice :
    (rules : List ScalingRule)
    → map default_scaling_rule (map default_scaling_rule rules) ≡ map default_scaling_rule rules
scaling_twice [] = refl
scaling_twice (rule ∷ rules) = cc (scaling_rule_twice rule, scaling_twice rules)

replicas_twice : (r : ReplicaConfig) → default_replicas (default_replicas r) ≡ default_replicas r
unfolding default_replicas
replicas_twice r = ground arith

health_check_twice :
    (h : Option HealthCheck)
    → default_health_check (default_health_check h) ≡ default_health_check h
unfolding default_health_check
health_check_twice none = refl
health_check_twice (some h) = ground (
  arith,
  or_zero_twice h.interval (seconds 10),
  or_zero_twice h.timeout (seconds 3),
  or_zero_twice h.retries (pos 3),
  or_zero_twice h.initial_delay (seconds 5),
)

network_twice : (n : NetworkConfig) → default_network (default_network n) ≡ default_network n
unfolding default_network
network_twice n = ground arith

tier_twice : (t : Tier) → default_tier (default_tier t) ≡ default_tier t
tier_twice t = ground arith

failure_policy_twice :
    (p : FailurePolicy)
    → default_failure_policy (default_failure_policy p) ≡ default_failure_policy p
unfolding default_failure_policy
failure_policy_twice p = simp or_zero_twice

log_retention_twice :
    (l : LogRetention) → default_log_retention (default_log_retention l) ≡ default_log_retention l
unfolding default_log_retention
log_retention_twice l = simp or_zero_twice

snapshot_config_twice :
    (c : SnapshotConfig)
    → default_snapshot_config (default_snapshot_config c) ≡ default_snapshot_config c
unfolding default_snapshot_config
snapshot_config_twice c = simp or_zero_twice

runtime_twice : (r : RuntimeConfig) → default_runtime (default_runtime r) ≡ default_runtime r
unfolding default_runtime
runtime_twice r = simp (
  network_twice, health_check_twice, failure_policy_twice, log_retention_twice,
  snapshot_config_twice, or_zero_twice,
)

momentum_twice :
    (t : Tier) (m : MomentumConfig)
    → default_momentum t (default_momentum t m) ≡ default_momentum t m
unfolding default_momentum
momentum_twice t m = simp or_zero_twice

-- Applying the defaults again changes nothing: a spec that is created, and later sent back in an
-- update, is stable.
pub default_spec_idem : (spec : CapsuleSpec) → default_spec (default_spec spec) ≡ default_spec spec
unfolding default_spec
default_spec_idem spec =
    simp (tier_twice, replicas_twice, scaling_twice, placement_twice, runtime_twice, momentum_twice)

default_placement_required :
    (rules : List PlacementRule)
    → All (λ rule. rule.required ≡ true) (map default_placement_rule rules)
unfolding default_placement_rule
default_placement_required [] = tt
default_placement_required (rule ∷ rules) = (ground arith, default_placement_required rules)

-- After the defaults every placement rule is hard, also one that was given as soft.
pub default_spec-required :
    (spec : CapsuleSpec) → All (λ rule. rule.required ≡ true) (default_spec spec).placement_rules
unfolding default_spec
default_spec-required spec = default_placement_required spec.placement_rules
