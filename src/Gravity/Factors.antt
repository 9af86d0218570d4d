-- ===== src/Gravity/Factors.antt =====
-- election/gravity/factors.go, and the utilisations of state.go. A factor that does not apply is
-- `none`. A nil lookup of targets or snapshots is `none`.
use falak.Prelude.{
  ℕ, Bool, true, false, not, ◌&&◌, ◌||◌, Option, none, some, String, string_eq, ◌==◌, any, keep,
  length, nat_beq, if◌then◌else◌,
}
use falak.Prelude.Int.{ℤ, pos, ltb_ℤ, ◌-ℤ◌}
use falak.Capsule.Types.{PlacementMode, near, is_capsule_type}
use falak.Capsule.Labels.{has_label}
use falak.Capsule.Store.{Capsule}
use falak.Spec.Records.{PlacementRule}
use falak.Gravity.Floats.{Floats, clamp01}
use falak.Gravity.Eligibility.{
  NodeState, Resources, TargetLookup, contains_string, rule_matches_node,
}

-- `HasLocalSnapshot`.
abbrev pub SnapshotLookup : Type 0
SnapshotLookup = String → String → Bool

abbrev pub is_near : PlacementMode → Bool
is_near near = true
is_near _ = false

pub is_near_rule : PlacementRule → Bool
is_near_rule rule = is_capsule_type rule.kind && is_near rule.mode

module _ {F : Type 0} (f : Floats F) where
  pub applied : F → Option F
  applied v = some (clamp01 f v)

  -- `float64(a) / float64(b)`.
  pub fraction : ℤ → ℤ → F
  fraction a b = f.div (f.of_int a) (f.of_int b)

  -- The share of a resource that stays free when the capsule starts.
  pub headroom : ℤ → ℤ → ℤ → Option F
  unfolding applied fraction
  headroom required free total =
      if not (ltb_ℤ (pos 0) required) || not (ltb_ℤ (pos 0) total)
      then none
      else if ltb_ℤ (free -ℤ required) (pos 0)
      then applied f.zero
      else applied (fraction (free -ℤ required) total)

  pub factor_cpu_headroom : Capsule → NodeState F → Option F
  unfolding headroom
  factor_cpu_headroom c n =
      headroom c.spec.resources.cpu_cores n.resources.cpu_cores_free n.resources.cpu_cores_total

  pub factor_memory_headroom : Capsule → NodeState F → Option F
  unfolding headroom
  factor_memory_headroom c n =
      headroom c.spec.resources.memory_mb n.resources.memory_mb_free n.resources.memory_mb_total

  pub factor_disk_headroom : Capsule → NodeState F → Option F
  unfolding headroom
  factor_disk_headroom c n =
      headroom c.spec.resources.disk_mb n.resources.disk_mb_free n.resources.disk_mb_total

  -- `matched` of `total`, when there are any.
  pub share : ℕ → ℕ → Option F
  unfolding applied fraction
  share matched total =
      if nat_beq total 0 then none else applied (fraction (pos matched) (pos total))

  pub factor_soft_placement_match : Capsule → NodeState F → Option TargetLookup → Option F
  unfolding share
  factor_soft_placement_match c n running =
      let soft = keep (λ (r : PlacementRule). not r.required) c.spec.placement_rules in
      share (length (keep (λ r. rule_matches_node r n running) soft)) (length soft)

  pub is_beside : TargetLookup → NodeState F → PlacementRule → Bool
  unfolding contains_string
  is_beside running n rule =
      any (λ name. contains_string (running n.cluster_path name) n.node_id) rule.names

  pub factor_affinity_proximity : Capsule → NodeState F → Option TargetLookup → Option F
  unfolding share is_near_rule is_beside
  factor_affinity_proximity c n none = none
  factor_affinity_proximity c n (some running) =
      let rules = keep is_near_rule c.spec.placement_rules in
      share (length (keep (is_beside running n) rules)) (length rules)

  pub factor_hardware_label_match : Capsule → NodeState F → Option F
  unfolding share
  factor_hardware_label_match c n =
      share (length (keep (has_label n.labels) c.spec.labels)) (length c.spec.labels)

  -- The cap of 50 capsules is a constant of the source.
  pub factor_load_penalty : NodeState F → Option F
  unfolding applied
  factor_load_penalty n =
      let utilization = f.div (f.of_int (pos n.running_capsule_count)) f.fifty in
      applied (f.minus f.one (if f.less f.one utilization then f.one else utilization))

  pub factor_reliability : NodeState F → Option F
  unfolding applied
  factor_reliability n = applied n.reliability_score

  pub factor_diversity : Capsule → NodeState F → Option F
  unfolding applied
  factor_diversity c n =
      if ltb_ℤ c.spec.replicas.min_count (pos 2) && ltb_ℤ c.spec.replicas.exact (pos 2)
      then none
      else applied (if n.datacenter == "" then f.zero else f.one)

  pub factor_snapshot_locality : Capsule → Option SnapshotLookup → Option F
  unfolding applied
  factor_snapshot_locality c none = none
  factor_snapshot_locality c (some has_local) =
      let tag = if c.spec.image_digest == "" then c.spec.image else c.spec.image_digest in
      applied (if has_local c.id tag then f.one else f.zero)

  -- The fraction of a resource in use.
  pub utilization : ℤ → ℤ → F
  unfolding fraction
  utilization total free =
      let used = total -ℤ free in
      if not (ltb_ℤ (pos 0) total)
      then f.zero
      else fraction (if ltb_ℤ used (pos 0) then pos 0 else used) total

  pub cpu_utilization : Resources → F
  unfolding utilization
  cpu_utilization r = utilization r.cpu_cores_total r.cpu_cores_free

  pub memory_utilization : Resources → F
  unfolding utilization
  memory_utilization r = utilization r.memory_mb_total r.memory_mb_free

  pub disk_utilization : Resources → F
  unfolding utilization
  disk_utilization r = utilization r.disk_mb_total r.disk_mb_free
