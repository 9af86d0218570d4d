-- ===== src/Node/Tests.antt =====
-- The theorems about the capsules that a node shares, on a concrete capsule.
use falak.Prelude.{
  ◌/◌, ◌≡◌, refl, true, false, [], ◌∷◌, List, none, some, String, lookup, has, All, string_eq,
}
use falak.Prelude.Int.{ℤ, pos, pos_part}
use falak.Capsule.Types.{announced}
use falak.Capsule.Store.{Capsule}
use falak.Capsule.Samples.{web_at}
use falak.Spec.Records.{ScalingRule}
use falak.Spec.Samples.{web_spec}
use falak.Node.Wire.Encode.{capsule_to_proto}
use falak.Node.Wire.Decode.{proto_to_capsule, seconds}
use falak.Node.Wire.RoundTrip.{IsWhole, carried, proto_to_capsule-capsule_to_proto}
use falak.Node.Capsules.{CapsuleHandler}
use falak.Node.Capsules.Handling.{withdrawn_capsule, on_orbit_message}
use falak.Node.Capsules.Withdrawal.{on_orbit_message-withdrawn}

abbrev whole_seconds : ℤ → ℤ
whole_seconds d = pos (pos_part d / 1000000000)

idle-IsWhole : IsWhole whole_seconds web_spec.momentum_config.idle_timeout
unfolding seconds
idle-IsWhole = refl

cooldowns-IsWhole :
    All (λ (r : ScalingRule). IsWhole whole_seconds r.cooldown) web_spec.scaling_rules
unfolding seconds
cooldowns-IsWhole = (refl, tt)

proto_to_capsule-capsule_to_proto_example :
    proto_to_capsule (some (capsule_to_proto whole_seconds (web_at announced)))
    ≡ some (carried (web_at announced))
proto_to_capsule-capsule_to_proto_example =
    proto_to_capsule-capsule_to_proto whole_seconds (web_at announced) idle-IsWhole
      cooldowns-IsWhole

-- Nodes of the cluster "local" that joined the orbit "edge"; rules stay as they are.
abbrev node_with : List (String × Capsule) → CapsuleHandler (List ScalingRule)
node_with capsules = record {
  node_id = "b";
  manager = record {
    store = record { capsules = capsules; has_db = false };
    lifecycles = [];
    events = [];
  };
  orbits = ("local", "edge" ∷ []) ∷ [];
  monitored = [];
  notices = [];
  sent = [];
  forgotten = [];
  has_forgetter = true;
}

local-ready : has (lookup "local" (node_with []).orbits) ≡ true
unfolding lookup
local-ready = refl

web-known :
    lookup "c1" (node_with (("c1", web_at announced) ∷ [])).manager.store.capsules
    ≡ some (web_at announced)
unfolding lookup
web-known = refl

on_orbit_message-withdrawn_example :
    let after =
      on_orbit_message whole_seconds
        (λ rules. some rules)
        (node_with (("c1", web_at announced) ∷ []))
        7
        true
        true
        "local"
        (some (withdrawn_capsule "c1")) in
    (lookup "c1" after.manager.store.capsules ≡ none)
    × (lookup "c1" after.monitored ≡ none)
    × (on_orbit_message whole_seconds
          (λ rules. some rules)
          after
          9
          true
          true
          "local"
          (some (withdrawn_capsule "c1"))
        ≡ after)
on_orbit_message-withdrawn_example =
    on_orbit_message-withdrawn whole_seconds (λ rules. some rules)
      (node_with (("c1", web_at announced) ∷ [])) 7 9 true true "local" "c1" (web_at announced)
      local-ready web-known refl refl
