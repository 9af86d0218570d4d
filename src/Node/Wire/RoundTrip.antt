-- ===== src/Node/Wire/RoundTrip.antt =====
-- What of a capsule reaches the nodes of its orbit.
use falak.Prelude.{◌≡◌, refl, List, [], ◌∷◌, map, some, All, ap}
use falak.Prelude.Int.{ℤ}
use falak.Capsule.Store.{Capsule, ReplicaState}
use falak.Spec.Records.{CapsuleSpec, ScalingRule, PlacementRule}
use falak.Node.Wire.Encode.{
  rule_to_proto, placement_rule_to_proto, replica_to_proto, spec_to_proto, replica_states_to_proto,
  capsule_to_proto,
}
use falak.Node.Wire.Decode.{
  seconds, time_of, no_runtime, no_resources, proto_to_resources, proto_to_replicas,
  proto_to_runtime, proto_to_momentum_config, proto_to_rule, proto_to_placement_rule, proto_to_spec,
  proto_to_momentum, proto_to_replica, proto_to_capsule,
}

-- The specification without its alias, limits and command, and of the runtime only the environment.
abbrev pub carried_spec : CapsuleSpec → CapsuleSpec
carried_spec s = record s {
  image_alias = "";
  resources = record no_resources {
    cpu_cores = s.resources.cpu_cores;
    memory_mb = s.resources.memory_mb;
    disk_mb = s.resources.disk_mb;
  };
  runtime = record no_runtime { env = s.runtime.env };
  command = [];
}

abbrev pub carried : Capsule → Capsule
carried c = record c { spec = carried_spec c.spec }

replicas-carried : (rs : List ReplicaState) → map proto_to_replica (replica_states_to_proto rs) ≡ rs
unfolding replica_states_to_proto replica_to_proto proto_to_replica time_of
replicas-carried [] = refl
replicas-carried (r ∷ rs) = ap (λ xs. r ∷ xs) (replicas-carried rs)

placement-carried :
    (rs : List PlacementRule) → map proto_to_placement_rule (map placement_rule_to_proto rs) ≡ rs
unfolding placement_rule_to_proto proto_to_placement_rule
placement-carried [] = refl
placement-carried (r ∷ rs) = ap (λ xs. r ∷ xs) (placement-carried rs)

-- The duration is a number of seconds that an int32 holds.
abbrev pub IsWhole : (ℤ → ℤ) → ℤ → Type 0
IsWhole seconds_of d = seconds (seconds_of d) ≡ d

rules-carried :
    (seconds_of : ℤ → ℤ) (rs : List ScalingRule)
    → All (λ (r : ScalingRule). IsWhole seconds_of r.cooldown) rs
    → map proto_to_rule (map (rule_to_proto seconds_of) rs) ≡ rs
unfolding proto_to_rule rule_to_proto
rules-carried seconds_of [] w = refl
rules-carried seconds_of (r ∷ rs) w = rw (w.0, rules-carried seconds_of rs w.1) refl

-- A capsule whose durations are whole seconds reaches the other nodes with its state and all its
-- rules, but its specification without image alias, resource limits and command, and with nothing
-- of the runtime configuration but the environment.
pub proto_to_capsule-capsule_to_proto :
    (seconds_of : ℤ → ℤ) (c : Capsule)
    → IsWhole seconds_of c.spec.momentum_config.idle_timeout
    → All (λ (r : ScalingRule). IsWhole seconds_of r.cooldown) c.spec.scaling_rules
    → proto_to_capsule (some (capsule_to_proto seconds_of c)) ≡ some (carried c)
unfolding proto_to_capsule capsule_to_proto spec_to_proto proto_to_spec proto_to_resources
    proto_to_replicas proto_to_runtime proto_to_momentum_config proto_to_momentum time_of
proto_to_capsule-capsule_to_proto seconds_of c idle cools =
    rw
      (
        idle,
        rules-carried seconds_of c.spec.scaling_rules cools,
        placement-carried c.spec.placement_rules,
        replicas-carried c.replicas,
      )
      refl
