-- ===== src/Placement.antt =====
-- capsule/placement: rule.go, selector.go and evaluator.go. The provider of the mesh's entities is
-- an interface of the source, the parameter `EntityProvider`. The score of a node counts soft rules,
-- so the `float64` that the source adds 1.0 to is a number here.
pub mod Evaluation
mod Affinity
mod Selection
mod Defaulted
mod Tests
use falak.Prelude.{
  ℕ, suc, ◌+◌, Bool, true, false, not, ◌&&◌, List, [], ◌∷◌, ◌++◌, Option, none, some, String, map,
  lookup, any, all, keep, is_nil, ◌==◌, string_eq, if◌then◌else◌,
}
use falak.Capsule.Types.{
  PlacementType, node, cluster, datacenter, capsule, PlacementMode, near, away, is_capsule_type,
}
use falak.Spec.Records.{PlacementRule}
use falak.Capsule.Labels.{Labels, same_keyword, labels_match}

pub record Rule : Type 0 where
  pub name : String
  pub kind : PlacementType
  pub mode : PlacementMode
  pub names : List String
  pub labels : Labels
  pub required : Bool

pub from_spec : PlacementRule → Rule
from_spec spec = record {
  name = spec.name;
  kind = spec.kind;
  mode = spec.mode;
  names = spec.names;
  labels = spec.labels;
  required = spec.required;
}

pub from_spec_list : List PlacementRule → List Rule
unfolding from_spec
from_spec_list specs = map from_spec specs

abbrev pub is_near_mode : PlacementMode → Bool
is_near_mode near = true
is_near_mode _ = false

abbrev pub is_away_mode : PlacementMode → Bool
is_away_mode away = true
is_away_mode _ = false

pub is_capsule_rule : Rule → Bool
is_capsule_rule r = is_capsule_type r.kind

pub is_near : Rule → Bool
unfolding is_capsule_rule
is_near r = is_capsule_rule r && is_near_mode r.mode

pub is_away : Rule → Bool
unfolding is_capsule_rule
is_away r = is_capsule_rule r && is_away_mode r.mode

-- The loop of `SameKeys` over the labels.
pub same_keys_of : Labels → List String
same_keys_of [] = []
same_keys_of ((key, val) ∷ m) =
    let rest = same_keys_of m in if val == same_keyword then key ∷ rest else rest

pub same_keys : Rule → List String
unfolding same_keys_of
same_keys r = same_keys_of r.labels

pub record Entity : Type 0 where
  pub name : String
  pub kind : PlacementType
  pub labels : Labels

pub record EntityProvider : Type 0 where
  pub nodes : List Entity
  pub clusters : List Entity
  pub datacenters : List Entity
  pub capsule_nodes : List String → Labels → List Entity

abbrev pub contains : List String → String → Bool
contains names s = any (λ n. n == s) names

pub select_by_name : List Entity → List String → List Entity
select_by_name entities names =
    if is_nil names then entities else keep (λ e. contains names e.name) entities

pub select_by_labels : List Entity → Labels → List Entity
select_by_labels entities required =
    if is_nil required then entities else keep (λ e. labels_match e.labels required) entities

pub select : List Entity → List String → Labels → List Entity
unfolding select_by_name select_by_labels
select entities names labels =
    let named = if is_nil names then entities else select_by_name entities names in
    if is_nil labels then named else select_by_labels named labels

pub evaluate_direct_rule : Entity → Rule → Bool
evaluate_direct_rule n rule =
    if not (is_nil rule.names) && not (contains rule.names n.name)
    then false
    else labels_match n.labels rule.labels

-- The loop that looks for the entity that a label of the node names.
pub named_by : Option String → List Entity → Bool
named_by none matching = false
named_by (some label) matching = any (λ c. c.name == label) matching

abbrev pub same_value : Option String → Option String → Bool
same_value (some v) (some w) = v == w
same_value _ _ = false

-- The inner loop of `evaluateCapsuleRule`.
pub all_match : Entity → Entity → List String → Bool
all_match n target keys = all (λ k. same_value (lookup k n.labels) (lookup k target.labels)) keys

pub shares_labels : Entity → List Entity → List String → Bool
unfolding all_match
shares_labels n targets keys = any (λ target. all_match n target keys) targets

pub record Result : Type 0 where
  pub node_name : String
  pub eligible : Bool
  pub score : ℕ
  pub failed_rules : List String
  pub matched_soft : List String

module _ (provider : EntityProvider) where
  pub evaluate_cluster_rule : Entity → Rule → Bool
  unfolding select named_by
  evaluate_cluster_rule n rule =
      named_by (lookup "cluster" n.labels) (select provider.clusters rule.names rule.labels)

  pub evaluate_datacenter_rule : Entity → Rule → Bool
  unfolding select named_by
  evaluate_datacenter_rule n rule =
      named_by (lookup "datacenter" n.labels) (select provider.datacenters rule.names rule.labels)

  pub evaluate_capsule_rule : Entity → Rule → Bool
  unfolding same_keys shares_labels is_near is_away
  evaluate_capsule_rule n rule =
      let targets = provider.capsule_nodes rule.names [] in
      if is_nil targets
      then is_away rule
      else if is_nil (same_keys rule)
      then true
      else if is_near rule
      then shares_labels n targets (same_keys rule)
      else if is_away rule
      then not (shares_labels n targets (same_keys rule))
      else false

  pub evaluate_kind : PlacementType → Entity → Rule → Bool
  unfolding evaluate_direct_rule evaluate_cluster_rule evaluate_datacenter_rule
      evaluate_capsule_rule
  evaluate_kind node n rule = evaluate_direct_rule n rule
  evaluate_kind cluster n rule = evaluate_cluster_rule n rule
  evaluate_kind datacenter n rule = evaluate_datacenter_rule n rule
  evaluate_kind capsule n rule = evaluate_capsule_rule n rule
  evaluate_kind _ n rule = false

  pub evaluate_rule : Entity → Rule → Bool
  unfolding evaluate_kind
  evaluate_rule n rule = evaluate_kind rule.kind n rule

  -- The body of the loop of `EvaluateNode`, with the outcome of the rule.
  pub apply_rule : Result → Rule → Bool → Result
  apply_rule r rule passed =
      if not passed && rule.required
      then record r { eligible = false; failed_rules = r.failed_rules ++ rule.name ∷ [] }
      else if passed && not rule.required
      then record r { score = r.score + 1; matched_soft = r.matched_soft ++ rule.name ∷ [] }
      else r

  pub apply_rules : Entity → Result → List Rule → Result
  unfolding apply_rule evaluate_rule
  apply_rules n r [] = r
  apply_rules n r (rule ∷ rules) = apply_rules n (apply_rule r rule (evaluate_rule n rule)) rules

  pub evaluate_node : Entity → List Rule → Result
  unfolding apply_rules
  evaluate_node n rules =
      apply_rules n
        (record {
          node_name = n.name;
          eligible = true;
          score = 0;
          failed_rules = [];
          matched_soft = [];
        })
        rules

  pub evaluate_all : List Rule → List Result
  unfolding evaluate_node
  evaluate_all rules = map (λ n. evaluate_node n rules) provider.nodes

  pub eligible_nodes : List Rule → List Result
  unfolding evaluate_all
  eligible_nodes rules = keep (λ r. r.eligible) (evaluate_all rules)
