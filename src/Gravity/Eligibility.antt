-- ===== src/Gravity/Eligibility.antt =====
-- election/gravity/state.go and eligibility.go, and the lookup over the capsules of a node of
-- node/election_handler.go. Scores are of a type `F` of floats.

pub mod Filter
use falak.Prelude.{
  ℕ, Bool, true, false, not, ◌&&◌, ◌||◌, List, [], ◌∷◌, ◌++◌, Option, none, some, String, string_eq,
  ◌==◌, any, all, is_nil, lookup, if◌then◌else◌,
}
use falak.Prelude.Int.{ℤ, pos, ltb_ℤ, ◌-ℤ◌}
use falak.Capsule.Types.{
  PlacementType, node, cluster, datacenter, capsule, other_type, PlacementMode, near, away,
  other_placement_mode,
}
use falak.Capsule.Labels.{Labels, labels_match}
use falak.Capsule.Store.{Capsule, ReplicaState}
use falak.Spec.Records.{CapsuleSpec, PlacementRule, ResourceRequirements}
use falak.Phonebook.{NodeStatus, active, same_status}

pub record Resources : Type 0 where
  pub cpu_cores_total : ℤ
  pub cpu_cores_free : ℤ
  pub memory_mb_total : ℤ
  pub memory_mb_free : ℤ
  pub disk_mb_total : ℤ
  pub disk_mb_free : ℤ

pub record NodeState (F : Type 0) : Type 0 where
  pub node_id : String
  pub cluster_path : String
  pub datacenter : String
  pub region : String
  pub labels : Labels
  pub resources : Resources
  pub status : NodeStatus
  pub reliability_score : F
  pub running_capsule_count : ℕ

pub is_healthy : NodeStatus → Bool
unfolding same_status
is_healthy status = same_status status active

pub data Reason : Type 0 where
  ok resources_cpu resources_memory resources_disk not_healthy placement_rule excluded : Reason

pub record Ineligibility : Type 0 where
  pub reason : Reason
  pub detail : String

pub passed_eligibility : Ineligibility → Bool
passed_eligibility i = elim i.reason [ ok ↦ true | _ ↦ false ]

unfoldable pub contains_string : List String → String → Bool
contains_string haystack needle = any (λ s. s == needle) haystack

-- `NodesRunningCapsule` of a lookup: the nodes for a cluster path and a capsule's name.
abbrev pub TargetLookup : Type 0
TargetLookup = String → String → List String

-- `electionCapsuleLookup.NodesRunningCapsule`.
pub replica_nodes : List ReplicaState → List String
replica_nodes [] = []
replica_nodes (r ∷ rs) =
    let rest = replica_nodes rs in if r.node_id == "" then rest else r.node_id ∷ rest

pub nodes_running_capsule : List Capsule → TargetLookup
unfolding replica_nodes
nodes_running_capsule [] path name = []
nodes_running_capsule (c ∷ cs) path name =
    let rest = nodes_running_capsule cs path name in
    if not (c.cluster_id == path) || not (c.spec.name == name)
    then rest
    else replica_nodes c.replicas ++ rest

pub target_ids : TargetLookup → String → List String → List String
target_ids running path [] = []
target_ids running path (name ∷ names) = running path name ++ target_ids running path names

abbrev is_away : PlacementMode → Bool
is_away away = true
is_away _ = false

-- Given names restrict, none do not.
pub named : List String → String → Bool
unfolding contains_string
named names name = is_nil names || contains_string names name

-- With the node among the targets, or not.
pub beside : PlacementMode → Bool → Bool
beside near also_runner = also_runner
beside away also_runner = not also_runner
beside (other_placement_mode s) also_runner = false

-- A resource is asked for, and more than is free.
pub lacks : ℤ → ℤ → Bool
lacks required free = ltb_ℤ (pos 0) required && ltb_ℤ free required

abbrev because : Reason → String → Ineligibility
because reason detail = record { reason = reason; detail = detail }

module _ {F : Type 0} where
  pub match_node_rule : PlacementRule → NodeState F → Bool
  unfolding named
  match_node_rule rule n = named rule.names n.node_id && labels_match n.labels rule.labels

  pub match_cluster_rule : PlacementRule → NodeState F → Bool
  unfolding named
  match_cluster_rule rule n = named rule.names n.cluster_path && is_nil rule.labels

  pub match_datacenter_rule : PlacementRule → NodeState F → Bool
  unfolding named
  match_datacenter_rule rule n = named rule.names n.datacenter && is_nil rule.labels

  pub match_capsule_rule : PlacementRule → NodeState F → Option TargetLookup → Bool
  match_capsule_rule rule n none = is_away rule.mode
  match_capsule_rule rule n (some running) =
      let targets = target_ids running n.cluster_path rule.names in
      if is_nil rule.names || is_nil targets
      then is_away rule.mode
      else beside rule.mode (contains_string targets n.node_id)

  pub match_kind : PlacementType → PlacementRule → NodeState F → Option TargetLookup → Bool
  unfolding match_node_rule match_cluster_rule match_datacenter_rule match_capsule_rule
  match_kind node rule n running = match_node_rule rule n
  match_kind cluster rule n running = match_cluster_rule rule n
  match_kind datacenter rule n running = match_datacenter_rule rule n
  match_kind capsule rule n running = match_capsule_rule rule n running
  match_kind (other_type s) rule n running = false

  pub rule_matches_node : PlacementRule → NodeState F → Option TargetLookup → Bool
  unfolding match_kind
  rule_matches_node rule n running = match_kind rule.kind rule n running

  -- The loop over the hard rules: the first that fails.
  pub failed_rule : NodeState F → Option TargetLookup → List PlacementRule → Option PlacementRule
  unfolding rule_matches_node
  failed_rule n running [] = none
  failed_rule n running (rule ∷ rules) =
      if not rule.required || rule_matches_node rule n running
      then failed_rule n running rules
      else some rule

  pub already_running : Option TargetLookup → NodeState F → String → Bool
  unfolding contains_string
  already_running none n name = false
  already_running (some running) n name = contains_string (running n.cluster_path name) n.node_id

  -- `detail_of` gives the text of a reason, with the name of a rule that failed.
  module _ (detail_of : Reason → String → String) where
    pub is_eligible : Capsule → NodeState F → Option TargetLookup → Ineligibility
    unfolding already_running is_healthy lacks failed_rule
    is_eligible c n running =
        let wants = c.spec.resources in
        if already_running running n c.spec.name
        then because excluded (detail_of excluded c.spec.name)
        else if not (is_healthy n.status)
        then because not_healthy (detail_of not_healthy "")
        else if lacks wants.cpu_cores n.resources.cpu_cores_free
        then because resources_cpu (detail_of resources_cpu "")
        else if lacks wants.memory_mb n.resources.memory_mb_free
        then because resources_memory (detail_of resources_memory "")
        else if lacks wants.disk_mb n.resources.disk_mb_free
        then because resources_disk (detail_of resources_disk "")
        else elim (failed_rule n running c.spec.placement_rules) [
          | none ↦ because ok ""
          | some rule ↦ because placement_rule (detail_of placement_rule rule.name)
        ]
