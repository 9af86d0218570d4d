-- ===== src/Placement/Defaulted.antt =====
-- The rules of a spec that went through `DefaultSpec` (capsule/spec.go), under the evaluator of
-- capsule/placement.
use falak.Prelude.{◌≡◌, refl, true, List, [], ◌∷◌, map, All, keep, arith}
use falak.Spec.Records.{PlacementRule, CapsuleSpec}
use falak.Spec.Defaults.{default_spec}
use falak.Spec.Defaults.Stable.{default_spec-required}
use falak.Placement.{Entity, EntityProvider, evaluate_node, from_spec, from_spec_list}
use falak.Placement.Evaluation.{meets_soft, evaluate_node_lem}

no_soft :
    (provider : EntityProvider) (n : Entity) (rules : List PlacementRule)
    → All (λ rule. rule.required ≡ true) rules
    → keep (meets_soft provider n) (map from_spec rules) ≡ []
unfolding keep from_spec
no_soft provider n [] h = refl
no_soft provider n (rule ∷ rules) h = ground (arith, no_soft provider n rules h.1)

-- Under the rules of a spec with its defaults applied no node ever scores: soft rules have become
-- hard ones, so all eligible nodes tie at 0.
pub score-default_spec :
    (provider : EntityProvider) (n : Entity) (spec : CapsuleSpec)
    → ((evaluate_node provider n (from_spec_list (default_spec spec).placement_rules)).score ≡ 0)
      × ((evaluate_node provider n
            (from_spec_list (default_spec spec).placement_rules)).matched_soft
          ≡ [])
unfolding from_spec_list
score-default_spec provider n spec =
    let none_soft =
      no_soft provider n (default_spec spec).placement_rules (default_spec-required spec) in
    rw (evaluate_node_lem provider n (map from_spec (default_spec spec).placement_rules), none_soft)
      (refl, refl)
