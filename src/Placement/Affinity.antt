-- ===== src/Placement/Affinity.antt =====
-- The capsule rules of capsule/placement/evaluator.go: affinity and anti-affinity.
use falak.Prelude.{true, false, not, ◌≡◌, [], is_nil, arith}
use falak.Capsule.Types.{capsule, near, away}
use falak.Placement.{Rule, Entity, EntityProvider, same_keys, shares_labels, evaluate_rule}

-- The rule with its mode turned into affinity, and into anti-affinity, to a capsule.
abbrev pub nearby : Rule → Rule
nearby rule = record rule { kind = capsule; mode = near }

abbrev pub apart : Rule → Rule
apart rule = record rule { kind = capsule; mode = away }

-- Where the target capsule runs somewhere and the rule has a label to compare, a node meets the
-- affinity exactly when it shares every such label with a node of the target, and the
-- anti-affinity exactly when it does not.
pub evaluate_rule_opposed :
    (provider : EntityProvider) (n : Entity) (rule : Rule)
    → is_nil (provider.capsule_nodes rule.names []) ≡ false
    → is_nil (same_keys rule) ≡ false
    → (evaluate_rule provider n (nearby rule)
        ≡ shares_labels n (provider.capsule_nodes rule.names []) (same_keys rule))
      × (evaluate_rule provider n (apart rule) ≡ not (evaluate_rule provider n (nearby rule)))
unfolding evaluate_rule
evaluate_rule_opposed provider n rule h k = ground arith

-- Where the target capsule runs nowhere, every node meets the anti-affinity and none the affinity.
pub evaluate_rule_unplaced :
    (provider : EntityProvider) (n : Entity) (rule : Rule)
    → provider.capsule_nodes rule.names [] ≡ []
    → (evaluate_rule provider n (nearby rule) ≡ false)
      × (evaluate_rule provider n (apart rule) ≡ true)
unfolding evaluate_rule
evaluate_rule_unplaced provider n rule h = ground arith

-- A rule with no label to compare is met by every node once the target capsule runs somewhere, the
-- anti-affinity too: it keeps no node away from the target's.
pub evaluate_rule_no_labels :
    (provider : EntityProvider) (n : Entity) (rule : Rule)
    → is_nil (provider.capsule_nodes rule.names []) ≡ false
    → is_nil (same_keys rule) ≡ true
    → (evaluate_rule provider n (nearby rule) ≡ true)
      × (evaluate_rule provider n (apart rule) ≡ true)
unfolding evaluate_rule
evaluate_rule_no_labels provider n rule h k = ground arith
