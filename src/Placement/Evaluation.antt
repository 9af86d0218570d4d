-- ===== src/Placement/Evaluation.antt =====
-- What the loops of capsule/placement/evaluator.go add up to.
use mathlib.Core.List.{append-nil, append_assoc}
use falak.Prelude.{
  ◌+◌, ◌≡◌, refl, ◌∙◌, Bool, not, ◌&&◌, List, [], ◌∷◌, ◌++◌, String, map, all, keep, length, arith,
  is_nil,
}
use falak.Placement.{
  Rule, Entity, EntityProvider, Result, evaluate_rule, apply_rule, apply_rules, evaluate_node,
  eligible_nodes,
}

module _ (provider : EntityProvider) (n : Entity) where
  -- A hard rule that the node fails, and a soft rule that it meets.
  abbrev pub fails_hard : Rule → Bool
  fails_hard rule = not (evaluate_rule provider n rule) && rule.required

  abbrev pub meets_soft : Rule → Bool
  meets_soft rule = evaluate_rule provider n rule && not rule.required

  abbrev pub names_of : List Rule → List String
  names_of = map (λ rule. rule.name)

  -- The result of the rules, read off the lists that fail and that match.
  abbrev summary : Result → List Rule → Result
  summary r rules = record {
    node_name = r.node_name;
    eligible = r.eligible && is_nil (keep fails_hard rules);
    score = r.score + length (keep meets_soft rules);
    failed_rules = r.failed_rules ++ names_of (keep fails_hard rules);
    matched_soft = r.matched_soft ++ names_of (keep meets_soft rules);
  }

  summary-nil : (r : Result) → r ≡ summary r []
  unfolding keep
  summary-nil r = ground (arith, append-nil r.failed_rules, append-nil r.matched_soft)

  summary-step :
      (r : Result) (rule : Rule) (rules : List Rule)
      → summary (apply_rule provider r rule (evaluate_rule provider n rule)) rules
        ≡ summary r (rule ∷ rules)
  unfolding apply_rule keep
  summary-step r rule rules = ground (
    arith,
    append_assoc r.failed_rules (rule.name ∷ []) (names_of (keep fails_hard rules)),
    append_assoc r.matched_soft (rule.name ∷ []) (names_of (keep meets_soft rules)),
  )

  apply_rules-summary :
      (r : Result) (rules : List Rule) → apply_rules provider n r rules ≡ summary r rules
  unfolding apply_rules
  apply_rules-summary r [] = summary-nil r
  apply_rules-summary r (rule ∷ rules) =
      apply_rules-summary (apply_rule provider r rule (evaluate_rule provider n rule)) rules
      ∙ summary-step r rule rules

  -- A node is eligible exactly when no hard rule fails; the failed rules and the matched soft
  -- rules are listed by name in the order of the rules, and the score counts the latter.
  pub evaluate_node_lem :
      (rules : List Rule)
      → evaluate_node provider n rules ≡ record {
        node_name = n.name;
        eligible = is_nil (keep fails_hard rules);
        score = length (keep meets_soft rules);
        failed_rules = names_of (keep fails_hard rules);
        matched_soft = names_of (keep meets_soft rules);
      }
  unfolding evaluate_node
  evaluate_node_lem rules = apply_rules-summary _ rules ∙ ground arith

  no_hard_failure :
      (rules : List Rule)
      → is_nil (keep fails_hard rules) ≡ all (λ rule. not (fails_hard rule)) rules
  unfolding keep all
  no_hard_failure [] = refl
  no_hard_failure (rule ∷ rules) = ground (arith, no_hard_failure rules)

-- The eligible results are those of the nodes that fail no hard rule, in the provider's order.
pub eligible_nodes_lem :
    (provider : EntityProvider) (rules : List Rule)
    → eligible_nodes provider rules
      ≡ map
          (λ n. evaluate_node provider n rules)
          (keep (λ n. all (λ rule. not (fails_hard provider n rule)) rules) provider.nodes)
unfolding eligible_nodes keep
eligible_nodes_lem provider rules = go provider.nodes
  where
    go :
        (ns : List Entity)
        → keep (λ r. r.eligible) (map (λ n. evaluate_node provider n rules) ns)
          ≡ map
              (λ n. evaluate_node provider n rules)
              (keep (λ n. all (λ rule. not (fails_hard provider n rule)) rules) ns)
    go [] = refl
    go (n ∷ ns) =
        ground (arith, go ns, evaluate_node_lem provider n rules, no_hard_failure provider n rules)
