-- ===== src/Placement/Tests.antt =====
-- The theorems about placement at a concrete mesh.
use falak.Prelude.{
  ◌≡◌, refl, true, false, not, [], ◌∷◌, some, map, lookup, all, keep, length, is_nil, string_eq,
  if◌then◌else◌,
}
use falak.Capsule.Types.{node, cluster, datacenter, capsule, near}
use falak.Spec.Samples.{web_spec}
use falak.Spec.Defaults.{default_spec}
use falak.Placement.{
  Rule, from_spec_list, Entity, EntityProvider, same_keys, same_keys_of, evaluate_node,
  eligible_nodes,
}
use falak.Placement.Evaluation.{
  fails_hard, meets_soft, names_of, evaluate_node_lem, eligible_nodes_lem,
}
use falak.Placement.Defaulted.{score-default_spec}

abbrev gpu_1 : Entity
gpu_1 = record {
  name = "gpu-1";
  kind = node;
  labels = ("cluster", "k") ∷ ("datacenter", "b1") ∷ ("zone", "a") ∷ [];
}

abbrev cpu_1 : Entity
cpu_1 = record {
  name = "cpu-1";
  kind = node;
  labels = ("cluster", "k") ∷ ("datacenter", "b1") ∷ ("zone", "b") ∷ [];
}

-- The capsule "db" runs on gpu-1.
abbrev mesh : EntityProvider
mesh = record {
  nodes = gpu_1 ∷ cpu_1 ∷ [];
  clusters = record { name = "k"; kind = cluster; labels = [] } ∷ [];
  datacenters = record { name = "b1"; kind = datacenter; labels = [] } ∷ [];
  capsule_nodes = λ names labels. if is_nil names then [] else gpu_1 ∷ [];
}

abbrev zone_rule : Rule
zone_rule = record {
  name = "with-db";
  kind = capsule;
  mode = near;
  names = "db" ∷ [];
  labels = ("zone", "same") ∷ [];
  required = true;
}

abbrev bare_rule : Rule
bare_rule = record zone_rule { labels = [] }

abbrev unplaced_rule : Rule
unplaced_rule = record zone_rule { names = [] }

evaluate_node_lem_example : evaluate_node mesh cpu_1 (zone_rule ∷ []) ≡ record {
  node_name = "cpu-1";
  eligible = is_nil (keep (fails_hard mesh cpu_1) (zone_rule ∷ []));
  score = length (keep (meets_soft mesh cpu_1) (zone_rule ∷ []));
  failed_rules = names_of mesh cpu_1 (keep (fails_hard mesh cpu_1) (zone_rule ∷ []));
  matched_soft = names_of mesh cpu_1 (keep (meets_soft mesh cpu_1) (zone_rule ∷ []));
}
evaluate_node_lem_example = evaluate_node_lem mesh cpu_1 (zone_rule ∷ [])

eligible_nodes_lem_example :
    eligible_nodes mesh (zone_rule ∷ [])
    ≡ map
        (λ n. evaluate_node mesh n (zone_rule ∷ []))
        (keep (λ n. all (λ rule. not (fails_hard mesh n rule)) (zone_rule ∷ [])) mesh.nodes)
eligible_nodes_lem_example = eligible_nodes_lem mesh (zone_rule ∷ [])

gpu_1-cluster : lookup "cluster" gpu_1.labels ≡ some "k"
unfolding lookup
gpu_1-cluster = refl

gpu_1-datacenter : lookup "datacenter" gpu_1.labels ≡ some "b1"
unfolding lookup
gpu_1-datacenter = refl

zone_rule-keyed : is_nil (same_keys zone_rule) ≡ false
unfolding same_keys same_keys_of
zone_rule-keyed = refl

bare_rule-keyless : is_nil (same_keys bare_rule) ≡ true
unfolding same_keys same_keys_of
bare_rule-keyless = refl

score-default_spec_example :
    ((evaluate_node mesh gpu_1 (from_spec_list (default_spec web_spec).placement_rules)).score ≡ 0)
    × ((evaluate_node mesh gpu_1
          (from_spec_list (default_spec web_spec).placement_rules)).matched_soft
        ≡ [])
score-default_spec_example = score-default_spec mesh gpu_1 web_spec
