-- ===== src/Spec/Validation.antt =====
-- `ValidateSpec` of capsule/spec.go: the list of the errors that it joins. The errors of rules carry
-- the rule's index; of the labels of a capsule rule the first bad one is reported.
pub mod Sound
use falak.Prelude.{
  ℕ, suc, Bool, true, false, not, ◌&&◌, ◌||◌, List, [], ◌∷◌, ◌++◌, Option, none, some, String, all,
  is_nil, ◌==◌, string_eq, if◌then◌else◌,
}
use falak.Prelude.Int.{ℤ, pos, eqb_ℤ, ltb_ℤ}
use falak.Capsule.Types.{
  tier_empty, tier_valid, trigger_valid, action_valid, type_valid, mode_valid, mode_empty,
  is_capsule_type,
}
use falak.Capsule.Labels.{same_keyword, Labels}
use falak.Spec.Records.{ReplicaConfig, ScalingRule, PlacementRule, CapsuleSpec}

pub data PlacementError : Type 0 where
  invalid_type mode_required mode_not_allowed no_names_or_labels not_same_keyword : PlacementError

pub data ScalingError : Type 0 where
  scaling_name_required invalid_trigger invalid_action no_conditions negative_cooldown :
      ScalingError

pub data SpecError : Type 0 where
  name_required image_required orbit_required invalid_tier invalid_cpu invalid_memory : SpecError
  invalid_disk invalid_replicas invalid_exact_replicas replica_conflict : SpecError
  placement_rule_error : ℕ → PlacementError → SpecError
  scaling_rule_error : ℕ → ScalingError → SpecError

abbrev pub is_positive : ℤ → Bool
is_positive x = ltb_ℤ (pos 0) x

abbrev pub is_negative : ℤ → Bool
is_negative x = ltb_ℤ x (pos 0)

pub validate_replicas : ReplicaConfig → Option SpecError
validate_replicas r =
    if is_positive r.exact && (is_positive r.min_count || is_positive r.max_count)
    then some replica_conflict
    else if is_negative r.exact
    then some invalid_exact_replicas
    else if eqb_ℤ r.exact (pos 0)
    then (if is_negative r.min_count || is_negative r.max_count
        then some invalid_replicas
        else if ltb_ℤ r.max_count r.min_count
        then some invalid_replicas
        else none)
    else none

abbrev pub is_same : String × String → Bool
is_same (key, val) = val == same_keyword

pub validate_placement_rule : PlacementRule → Option PlacementError
validate_placement_rule rule =
    if not (type_valid rule.kind)
    then some invalid_type
    else if is_capsule_type rule.kind && not (mode_valid rule.mode)
    then some mode_required
    else if not (is_capsule_type rule.kind) && not (mode_empty rule.mode)
    then some mode_not_allowed
    else if is_nil rule.names && is_nil rule.labels
    then some no_names_or_labels
    else if is_capsule_type rule.kind && not (all is_same rule.labels)
    then some not_same_keyword
    else none

pub validate_scaling_rule : ScalingRule → Option ScalingError
validate_scaling_rule rule =
    if rule.name == ""
    then some scaling_name_required
    else if not (trigger_valid rule.trigger)
    then some invalid_trigger
    else if not (action_valid rule.action)
    then some invalid_action
    else if is_nil rule.conditions
    then some no_conditions
    else if is_negative rule.cooldown
    then some negative_cooldown
    else none

-- `if bad { errs = append(errs, e) }`.
abbrev pub error_if : Bool → SpecError → List SpecError
error_if true e = e ∷ []
error_if false e = []

abbrev pub error_of : Option SpecError → List SpecError
error_of none = []
error_of (some e) = e ∷ []

abbrev pub placement_error : ℕ → Option PlacementError → List SpecError
placement_error i none = []
placement_error i (some e) = placement_rule_error i e ∷ []

abbrev pub scaling_error : ℕ → Option ScalingError → List SpecError
scaling_error i none = []
scaling_error i (some e) = scaling_rule_error i e ∷ []

-- The loops over the rules, from index `i` on.
pub placement_errors : ℕ → List PlacementRule → List SpecError
unfolding validate_placement_rule
placement_errors i [] = []
placement_errors i (rule ∷ rules) =
    placement_error i (validate_placement_rule rule) ++ placement_errors (suc i) rules

pub scaling_errors : ℕ → List ScalingRule → List SpecError
unfolding validate_scaling_rule
scaling_errors i [] = []
scaling_errors i (rule ∷ rules) =
    scaling_error i (validate_scaling_rule rule) ++ scaling_errors (suc i) rules

pub validate_spec : CapsuleSpec → List SpecError
unfolding validate_replicas placement_errors scaling_errors
validate_spec spec =
    error_if (spec.name == "") name_required
    ++ (error_if (spec.image == "") image_required
        ++ (error_if (spec.orbit == "") orbit_required
            ++ (error_if (not (tier_empty spec.tier) && not (tier_valid spec.tier)) invalid_tier
                ++ (error_if (is_negative spec.resources.cpu_cores) invalid_cpu
                    ++ (error_if (is_negative spec.resources.memory_mb) invalid_memory
                        ++ (error_if (is_negative spec.resources.disk_mb) invalid_disk
                            ++ (error_of (validate_replicas spec.replicas)
                                ++ (placement_errors 0 spec.placement_rules
                                    ++ scaling_errors 0 spec.scaling_rules))))))))
