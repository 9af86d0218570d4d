-- ===== src/Gravity/Eligibility/Filter.antt =====
-- Which nodes election/gravity/eligibility.go lets through.
use falak.Prelude.{
  ◌≡◌, ◌≢◌, ◌↔◌, refl, Bool, true, false, ◌&&◌, ◌||◌, List, [], ◌∷◌, ◌++◌, Option, none, some,
  String, string_eq, ◌==◌, any, All, arith,
}
use text.Mathlib.TextEquality.{eq_iff}
use falak.Prelude.Int.{ℤ, pos, ltb_ℤ, ◌≤ℤ◌}
use falak.Phonebook.{active, same_status}
use falak.Capsule.Store.{Capsule, ReplicaState}
use falak.Spec.Records.{PlacementRule}
use falak.Gravity.Eligibility.{
  NodeState, Reason, excluded, is_healthy, passed_eligibility, TargetLookup, contains_string,
  replica_nodes, nodes_running_capsule, rule_matches_node, failed_rule, already_running, lacks,
  is_eligible,
}

-- A resource that is asked for is free.
abbrev pub Fits : ℤ → ℤ → Type 0
Fits required free = ltb_ℤ (pos 0) required ≡ true → required ≤ℤ free

lacks_lem : (required free : ℤ) → (lacks required free ≡ false) ↔ Fits required free
unfolding lacks
lacks_lem required free = (λ h k. ground arith, λ h. ground (arith, h))

module _ {F : Type 0} where
  abbrev pub Holds : NodeState F → Option TargetLookup → PlacementRule → Type 0
  Holds n running rule = rule.required ≡ true → rule_matches_node rule n running ≡ true

  -- The conditions that a node has to meet.
  pub record IsFit (c : Capsule) (n : NodeState F) (running : Option TargetLookup) : Type 0 where
    pub not_running : already_running running n c.spec.name ≡ false
    pub healthy : n.status ≡ active
    pub cpu : Fits c.spec.resources.cpu_cores n.resources.cpu_cores_free
    pub memory : Fits c.spec.resources.memory_mb n.resources.memory_mb_free
    pub disk : Fits c.spec.resources.disk_mb n.resources.disk_mb_free
    pub rules : All (Holds n running) c.spec.placement_rules

  failed_rule-none :
      (n : NodeState F) (running : Option TargetLookup) (rules : List PlacementRule)
      → (failed_rule n running rules ≡ none) ↔ All (Holds n running) rules
  unfolding failed_rule
  failed_rule-none n running [] = (λ h. tt, λ h. refl)
  failed_rule-none n running (rule ∷ rules) = (
    λ h. (λ r. ground arith, (failed_rule-none n running rules).0 (ground arith)),
    λ h. ground (arith, h.0, (failed_rule-none n running rules).1 h.1),
  )

  status_lem : (n : NodeState F) → (is_healthy n.status ≡ true) ↔ (n.status ≡ active)
  unfolding is_healthy same_status
  status_lem n = (λ h. ground arith, λ h. ground arith)

  -- A node passes exactly when it runs no replica of the capsule yet, is active, has every resource
  -- free that is asked for, and meets every hard placement rule.
  pub is_eligible_iff :
      (detail_of : Reason → String → String) (c : Capsule) (n : NodeState F)
      (running : Option TargetLookup)
      → (passed_eligibility (is_eligible detail_of c n running) ≡ true) ↔ IsFit c n running
  unfolding is_eligible passed_eligibility
  is_eligible_iff detail_of c n running = (forth, back)
    where
      forth : passed_eligibility (is_eligible detail_of c n running) ≡ true → IsFit c n running
      forth h = record {
        not_running = ground arith;
        healthy = (status_lem n).0 (ground arith);
        cpu = (lacks_lem _ _).0 (ground arith);
        memory = (lacks_lem _ _).0 (ground arith);
        disk = (lacks_lem _ _).0 (ground arith);
        rules = (failed_rule-none n running c.spec.placement_rules).0 (ground arith);
      }

      back : IsFit c n running → passed_eligibility (is_eligible detail_of c n running) ≡ true
      back f = ground (
        arith,
        (status_lem n).1 f.healthy,
        (lacks_lem c.spec.resources.cpu_cores n.resources.cpu_cores_free).1 f.cpu,
        (lacks_lem c.spec.resources.memory_mb n.resources.memory_mb_free).1 f.memory,
        (lacks_lem c.spec.resources.disk_mb n.resources.disk_mb_free).1 f.disk,
        (failed_rule-none n running c.spec.placement_rules).1 f.rules,
      )

-- A capsule of the name in the cluster has a replica on the node.
abbrev pub hosts : String → String → String → Capsule → Bool
hosts path name node c =
    (c.cluster_id == path && c.spec.name == name)
    && any (λ (r : ReplicaState). r.node_id == node) c.replicas

any-append {ℓ} :
    {A : Type ℓ} (p : A → Bool) (xs ys : List A) → any p (xs ++ ys) ≡ (any p xs || any p ys)
unfolding any
any-append p [] ys = refl
any-append p (x ∷ xs) ys = ground (arith, any-append p xs ys)

contains-replica_nodes :
    (node : String) (rs : List ReplicaState)
    → node ≢ ""
    → contains_string (replica_nodes rs) node ≡ any (λ (r : ReplicaState). r.node_id == node) rs
unfolding replica_nodes contains_string any
contains-replica_nodes node [] h = refl
contains-replica_nodes node (r ∷ rs) h =
    ground (arith, eq_iff r.node_id "", eq_iff r.node_id node, contains-replica_nodes node rs h)

contains-nodes_running :
    (path name node : String) (cs : List Capsule)
    → node ≢ ""
    → contains_string (nodes_running_capsule cs path name) node ≡ any (hosts path name node) cs
unfolding nodes_running_capsule contains_string any
contains-nodes_running path name node [] h = refl
contains-nodes_running path name node (c ∷ cs) h = ground (
  arith,
  eq_iff c.cluster_id path,
  eq_iff c.spec.name name,
  any-append (λ (s : String). s == node) (replica_nodes c.replicas)
      (nodes_running_capsule cs path name),
  contains-replica_nodes node c.replicas h,
  contains-nodes_running path name node cs h,
)

-- With the lookup over the capsules that the node knows, a node is excluded exactly when one of
-- them, of the capsule's name and in the node's cluster, has a replica on it.
pub is_eligible-excluded :
    {F : Type 0} (detail_of : Reason → String → String) (c : Capsule) (n : NodeState F)
    (known : List Capsule)
    → n.node_id ≢ ""
    → ((is_eligible detail_of c n (some (nodes_running_capsule known))).reason ≡ excluded)
      ↔ (any (hosts n.cluster_path c.spec.name n.node_id) known ≡ true)
unfolding is_eligible already_running
is_eligible-excluded detail_of c n known h =
    let e = contains-nodes_running n.cluster_path c.spec.name n.node_id known h in
    (λ x. ground arith, λ x. ground arith)
