-- ===== src/Capsule/Types.antt =====
-- The string enums of capsule/capsule.go. `unknown s` stands for any other string, the empty one
-- included: the Go types are strings, and `Valid` tells the known values from the rest.
use falak.Prelude.{ℕ, Bool, true, false, ◌≡◌, ◌↔◌, String, arith, nat_beq, Eq, ◌==◌, string_eq}
use falak.Prelude.Int.{ℤ, pos}
use text.Mathlib.TextEquality.{eq_iff}

pub data CapsuleStatus : Type 0 where
  created announced electing assigned executing running stopping stopped : CapsuleStatus
  unknown : String → CapsuleStatus

unfoldable pub status_valid : CapsuleStatus → Bool
status_valid (unknown s) = false
status_valid _ = true

-- Go compares the strings.
abbrev status_code : CapsuleStatus → ℕ
status_code created = 0
status_code announced = 1
status_code electing = 2
status_code assigned = 3
status_code executing = 4
status_code running = 5
status_code stopping = 6
status_code stopped = 7
status_code (unknown s) = 8

unfoldable pub status_beq : CapsuleStatus → CapsuleStatus → Bool
status_beq (unknown s) (unknown t) = s == t
status_beq a b = nat_beq (status_code a) (status_code b)

pub status_beq_iff : (a b : CapsuleStatus) → (status_beq a b ≡ true) ↔ (a ≡ b)
unfolding status_beq
status_beq_iff (unknown s) (unknown t) = ground (arith, eq_iff s t)
status_beq_iff a b = ground arith

instance abbrev pub status_eq : Eq CapsuleStatus
status_eq = record { beq = status_beq; beq_iff = status_beq_iff }

pub data Tier : Type 0 where
  critical standard background : Tier
  other_tier : String → Tier

unfoldable pub base_momentum : Tier → ℤ
base_momentum critical = pos 90
base_momentum standard = pos 50
base_momentum background = pos 20
base_momentum (other_tier s) = pos 50

unfoldable pub tier_valid : Tier → Bool
tier_valid (other_tier s) = false
tier_valid _ = true

-- The comparison with the empty string.
abbrev pub tier_empty : Tier → Bool
tier_empty (other_tier s) = s == ""
tier_empty _ = false

pub data ScalingAction : Type 0 where
  scale_up scale_down scale_to_zero : ScalingAction
  other_action : String → ScalingAction

unfoldable pub action_valid : ScalingAction → Bool
action_valid (other_action s) = false
action_valid _ = true

pub data TriggerMode : Type 0 where
  any_of all_of : TriggerMode
  other_mode : String → TriggerMode

unfoldable pub trigger_valid : TriggerMode → Bool
trigger_valid (other_mode s) = false
trigger_valid _ = true

abbrev pub trigger_empty : TriggerMode → Bool
trigger_empty (other_mode s) = s == ""
trigger_empty _ = false

pub data PlacementType : Type 0 where
  node cluster datacenter capsule : PlacementType
  other_type : String → PlacementType

unfoldable pub type_valid : PlacementType → Bool
type_valid (other_type s) = false
type_valid _ = true

abbrev pub is_capsule_type : PlacementType → Bool
is_capsule_type capsule = true
is_capsule_type _ = false

pub data PlacementMode : Type 0 where
  near away : PlacementMode
  other_placement_mode : String → PlacementMode

unfoldable pub mode_valid : PlacementMode → Bool
mode_valid (other_placement_mode s) = false
mode_valid _ = true

abbrev pub mode_empty : PlacementMode → Bool
mode_empty (other_placement_mode s) = s == ""
mode_empty _ = false
