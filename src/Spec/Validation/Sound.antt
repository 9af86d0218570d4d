-- ===== src/Spec/Validation/Sound.antt =====
-- What a capsule specification that capsule/spec.go accepts looks like.
use falak.Prelude.{
  ℕ, suc, ◌≡◌, refl, ◌≢◌, ◌↔◌, ◌⊎◌, Bool, true, false, not, ◌&&◌, ◌||◌, List, [], ◌∷◌, ◌++◌, Option,
  none, some, arith, All, is_nil, all, ne_of_beq, beq_of_ne, if◌then◌else◌, ◌==◌, string_eq,
}
use text.Mathlib.TextEquality.{eq_iff}
use falak.Capsule.Types.{
  tier_empty, tier_valid, trigger_valid, action_valid, type_valid, mode_valid, mode_empty,
  is_capsule_type,
}
use falak.Prelude.Int.{ℤ, pos, ◌≤ℤ◌}
use falak.Spec.Records.{ReplicaConfig, ScalingRule, PlacementRule, CapsuleSpec}
use falak.Spec.Validation.{
  validate_replicas, validate_placement_rule, validate_scaling_rule, placement_errors,
  scaling_errors, validate_spec, is_same, placement_error, scaling_error, error_if, error_of,
  is_negative, PlacementError, ScalingError, SpecError,
}

-- A fixed number of replicas with no range beside it, or a range.
abbrev pub IsReplicaConfig : ReplicaConfig → Type 0
IsReplicaConfig r =
    ((pos 1 ≤ℤ r.exact) × (r.min_count ≤ℤ pos 0) × (r.max_count ≤ℤ pos 0))
    ⊎ ((r.exact ≡ pos 0) × (pos 0 ≤ℤ r.min_count) × (r.min_count ≤ℤ r.max_count))

-- A replica configuration is accepted exactly when it fixes a positive number of replicas and
-- gives no positive minimum or maximum, or fixes none and gives a range from 0 on.
pub validate_replicas_iff : (r : ReplicaConfig) → (validate_replicas r ≡ none) ↔ IsReplicaConfig r
unfolding validate_replicas
validate_replicas_iff r = ground arith

append-eq_nil {ℓ} : {A : Type ℓ} (xs ys : List A) → (xs ++ ys ≡ []) ↔ ((xs ≡ []) × (ys ≡ []))
append-eq_nil [] ys = ground arith
append-eq_nil (x ∷ xs) ys = ground arith

placement_error-nil : (i : ℕ) (o : Option PlacementError) → (placement_error i o ≡ []) ↔ (o ≡ none)
placement_error-nil i o = ground arith

scaling_error-nil : (i : ℕ) (o : Option ScalingError) → (scaling_error i o ≡ []) ↔ (o ≡ none)
scaling_error-nil i o = ground arith

-- A rule names its type, its mode exactly where the type is a capsule's, some name or label, and
-- compares the labels of capsules by the keyword alone.
abbrev pub IsPlacementRule : PlacementRule → Type 0
IsPlacementRule rule =
    (type_valid rule.kind ≡ true)
    × ((if is_capsule_type rule.kind then mode_valid rule.mode else mode_empty rule.mode) ≡ true)
    × ((is_nil rule.names && is_nil rule.labels) ≡ false)
    × ((not (is_capsule_type rule.kind) || all is_same rule.labels) ≡ true)

abbrev pub IsScalingRule : ScalingRule → Type 0
IsScalingRule rule =
    (rule.name ≢ "")
    × (trigger_valid rule.trigger ≡ true)
    × (action_valid rule.action ≡ true)
    × (is_nil rule.conditions ≡ false)
    × (pos 0 ≤ℤ rule.cooldown)

placement_rule_iff :
    (rule : PlacementRule) → (validate_placement_rule rule ≡ none) ↔ IsPlacementRule rule
unfolding validate_placement_rule
placement_rule_iff rule = ground arith

scaling_rule_iff : (rule : ScalingRule) → (validate_scaling_rule rule ≡ none) ↔ IsScalingRule rule
unfolding validate_scaling_rule
scaling_rule_iff rule = ground (arith, eq_iff rule.name "")

placement_errors_iff :
    (i : ℕ) (rules : List PlacementRule)
    → (placement_errors i rules ≡ []) ↔ All IsPlacementRule rules
unfolding placement_errors
placement_errors_iff i [] = (λ h. tt, λ h. refl)
placement_errors_iff i (rule ∷ rules) = ground (
  arith,
  append-eq_nil (placement_error i (validate_placement_rule rule)) (placement_errors (suc i) rules),
  placement_error-nil i (validate_placement_rule rule),
  placement_rule_iff rule,
  placement_errors_iff (suc i) rules,
)

scaling_errors_iff :
    (i : ℕ) (rules : List ScalingRule) → (scaling_errors i rules ≡ []) ↔ All IsScalingRule rules
unfolding scaling_errors
scaling_errors_iff i [] = (λ h. tt, λ h. refl)
scaling_errors_iff i (rule ∷ rules) = ground (
  arith,
  append-eq_nil (scaling_error i (validate_scaling_rule rule)) (scaling_errors (suc i) rules),
  scaling_error-nil i (validate_scaling_rule rule),
  scaling_rule_iff rule,
  scaling_errors_iff (suc i) rules,
)

-- An accepted specification.
pub record IsValidSpec (spec : CapsuleSpec) : Type 0 where
  pub named : spec.name ≢ ""
  pub imaged : spec.image ≢ ""
  pub placed : spec.orbit ≢ ""
  pub tiered : (tier_empty spec.tier || tier_valid spec.tier) ≡ true
  pub cpu : pos 0 ≤ℤ spec.resources.cpu_cores
  pub memory : pos 0 ≤ℤ spec.resources.memory_mb
  pub disk : pos 0 ≤ℤ spec.resources.disk_mb
  pub replicated : IsReplicaConfig spec.replicas
  pub placement : All IsPlacementRule spec.placement_rules
  pub scaling : All IsScalingRule spec.scaling_rules

-- A test in front of the errors that follow it.
test_iff {ℓ} :
    {Q : Type ℓ} (b : Bool) (e : SpecError) (ys : List SpecError)
    → (ys ≡ []) ↔ Q
    → (error_if b e ++ ys ≡ []) ↔ ((b ≡ false) × Q)
test_iff true e ys q = (λ h. absurd (ground arith), λ h. absurd (ground arith))
test_iff false e ys q = (λ h. (refl, q.0 h), λ h. q.1 h.1)

replicas_iff {ℓ} :
    {Q : Type ℓ} (o : Option SpecError) (ys : List SpecError)
    → (ys ≡ []) ↔ Q
    → (error_of o ++ ys ≡ []) ↔ ((o ≡ none) × Q)
replicas_iff none ys q = (λ h. (refl, q.0 h), λ h. q.1 h.1)
replicas_iff (some e) ys q = (λ h. absurd (ground arith), λ h. absurd (ground arith))

-- The fields that are tested one by one.
abbrev FieldTests : CapsuleSpec → Type 0
FieldTests spec =
    ((spec.name == "") ≡ false)
    × (((spec.image == "") ≡ false)
        × (((spec.orbit == "") ≡ false)
            × (((not (tier_empty spec.tier) && not (tier_valid spec.tier)) ≡ false)
                × ((is_negative spec.resources.cpu_cores ≡ false)
                    × ((is_negative spec.resources.memory_mb ≡ false)
                        × ((is_negative spec.resources.disk_mb ≡ false)
                            × ((validate_replicas spec.replicas ≡ none)
                                × ((placement_errors 0 spec.placement_rules ≡ [])
                                    × (scaling_errors 0 spec.scaling_rules ≡ [])))))))))

fields_iff : (spec : CapsuleSpec) → (validate_spec spec ≡ []) ↔ FieldTests spec
unfolding validate_spec
fields_iff spec = test_iff _ _ _ (
    test_iff _ _ _ (
      test_iff _ _ _ (
        test_iff _ _ _ (
          test_iff _ _ _ (
            test_iff _ _ _ (
              test_iff _ _ _ (
                replicas_iff (validate_replicas spec.replicas) _ (
                  append-eq_nil (placement_errors 0 spec.placement_rules)
                    (scaling_errors 0 spec.scaling_rules)))))))))

-- `ValidateSpec` reports no error exactly for the specifications that satisfy the conditions of
-- `IsValidSpec`: names given, a known tier or none, no negative resource, a replica configuration,
-- and every rule well formed.
pub validate_spec_iff : (spec : CapsuleSpec) → (validate_spec spec ≡ []) ↔ IsValidSpec spec
validate_spec_iff spec = (λ h. valid ((fields_iff spec).0 h), λ v. (fields_iff spec).1 (fields v))
  where
    known : (a b : Bool) → (not a && not b) ≡ false → (a || b) ≡ true
    known a b h = ground arith

    not_unknown : (a b : Bool) → (a || b) ≡ true → (not a && not b) ≡ false
    not_unknown a b h = ground arith

    natural : (x : ℤ) → is_negative x ≡ false → pos 0 ≤ℤ x
    natural x h = ground arith

    not_negative : (x : ℤ) → pos 0 ≤ℤ x → is_negative x ≡ false
    not_negative x h = ground arith

    valid : FieldTests spec → IsValidSpec spec
    valid (n, (i, (o, (t, (c, (m, (d, (r, (p, q))))))))) = record {
      named = ne_of_beq spec.name "" n;
      imaged = ne_of_beq spec.image "" i;
      placed = ne_of_beq spec.orbit "" o;
      tiered = known (tier_empty spec.tier) (tier_valid spec.tier) t;
      cpu = natural spec.resources.cpu_cores c;
      memory = natural spec.resources.memory_mb m;
      disk = natural spec.resources.disk_mb d;
      replicated = (validate_replicas_iff spec.replicas).0 r;
      placement = (placement_errors_iff 0 spec.placement_rules).0 p;
      scaling = (scaling_errors_iff 0 spec.scaling_rules).0 q;
    }

    fields : IsValidSpec spec → FieldTests spec
    fields v = (
      beq_of_ne spec.name "" v.named,
      (
        beq_of_ne spec.image "" v.imaged,
        (
          beq_of_ne spec.orbit "" v.placed,
          (
            not_unknown (tier_empty spec.tier) (tier_valid spec.tier) v.tiered,
            (
              not_negative spec.resources.cpu_cores v.cpu,
              (
                not_negative spec.resources.memory_mb v.memory,
                (
                  not_negative spec.resources.disk_mb v.disk,
                  (
                    (validate_replicas_iff spec.replicas).1 v.replicated,
                    (
                      (placement_errors_iff 0 spec.placement_rules).1 v.placement,
                      (scaling_errors_iff 0 spec.scaling_rules).1 v.scaling,
                    ),
                  ),
                ),
              ),
            ),
          ),
        ),
      ),
    )
