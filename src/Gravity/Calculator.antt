-- ===== src/Gravity/Calculator.antt =====
-- election/gravity/gravity.go.
pub mod Bounds
use falak.Prelude.{
  Bool, true, false, not, List, [], ◌∷◌, Option, none, some, String, map, if◌then◌else◌,
}
use falak.Capsule.Store.{Capsule}
use falak.Gravity.Floats.{Floats}
use falak.Gravity.Weights.{Weights}
use falak.Gravity.Eligibility.{
  NodeState, Reason, ok, Ineligibility, TargetLookup, passed_eligibility, is_eligible,
}
use falak.Gravity.Factors.{
  SnapshotLookup, factor_cpu_headroom, factor_memory_headroom, factor_disk_headroom,
  factor_soft_placement_match, factor_affinity_proximity, factor_hardware_label_match,
  factor_load_penalty, factor_reliability, factor_diversity, factor_snapshot_locality,
}

pub record Result (F : Type 0) : Type 0 where
  pub score : F
  pub factors : List (String × F)
  pub weights : Weights F
  pub eligible : Bool
  pub inelig : Ineligibility

pub record Calculator (F : Type 0) : Type 0 where
  pub weights : Weights F
  pub target_lookup : Option TargetLookup
  pub snap_lookup : Option SnapshotLookup

-- The variables that `addFactor` updates.
pub record Sums (F : Type 0) : Type 0 where
  pub factors : List (String × F)
  pub weighted : F
  pub maximum : F

module _ {F : Type 0} (f : Floats F) where
  pub add_factor : Sums F → String → Option F → F → Sums F
  add_factor s name none weight = s
  add_factor s name (some value) weight = record {
    factors = (name, value) ∷ s.factors;
    weighted = f.plus s.weighted (f.mul value weight);
    maximum = f.plus s.maximum weight;
  }

  pub subtract_load : Sums F → Option F → F → Sums F
  subtract_load s none weight = s
  subtract_load s (some value) weight = record {
    factors = ("load_penalty", value) ∷ s.factors;
    weighted = f.minus s.weighted (f.mul (f.minus f.one value) weight);
    maximum = f.plus s.maximum weight;
  }

  pub sums_of : Calculator F → Capsule → NodeState F → Sums F
  unfolding add_factor subtract_load
  sums_of calc c n =
      let w = calc.weights in
      let s0 : Sums F = record { factors = []; weighted = f.zero; maximum = f.zero } in
      let s1 = add_factor s0 "cpu_headroom" (factor_cpu_headroom f c n) w.cpu_headroom in
      let s2 = add_factor s1 "memory_headroom" (factor_memory_headroom f c n) w.memory_headroom in
      let s3 = add_factor s2 "disk_headroom" (factor_disk_headroom f c n) w.disk_headroom in
      let s4 =
        add_factor s3 "soft_placement_match" (factor_soft_placement_match f c n calc.target_lookup)
          w.soft_placement_match in
      let s5 =
        add_factor s4 "affinity_proximity" (factor_affinity_proximity f c n calc.target_lookup)
          w.affinity_proximity in
      let s6 =
        add_factor s5 "hardware_label_match" (factor_hardware_label_match f c n)
          w.hardware_label_match in
      let s7 = add_factor s6 "reliability" (factor_reliability f n) w.reliability in
      let s8 = add_factor s7 "diversity" (factor_diversity f c n) w.diversity in
      let s9 =
        add_factor s8 "snapshot_locality" (factor_snapshot_locality f c calc.snap_lookup)
          w.snapshot_locality in
      subtract_load s9 (factor_load_penalty f n) w.load_penalty

  -- `weightedSum / maxWeightedSum` within 0 and 1, times 100; 50 when no weight counts.
  pub normalized : Sums F → F
  normalized s =
      let q = f.div s.weighted s.maximum in
      let low = if f.less q f.zero then f.zero else q in
      f.mul (if f.less f.one low then f.one else low) f.hundred

  pub score_of : Sums F → F
  unfolding normalized
  score_of s = if f.at_most s.maximum f.zero then f.fifty else normalized s

  module _ (detail_of : Reason → String → String) where
    pub calculate : Calculator F → Capsule → NodeState F → Result F
    unfolding sums_of score_of
    calculate calc c n =
        let inelig = is_eligible detail_of c n calc.target_lookup in
        if not (passed_eligibility inelig)
        then record {
          score = f.zero;
          factors = [];
          weights = calc.weights;
          eligible = false;
          inelig = inelig;
        }
        else record {
          score = score_of (sums_of calc c n);
          factors = (sums_of calc c n).factors;
          weights = calc.weights;
          eligible = true;
          inelig = record { reason = ok; detail = "" };
        }

    pub calculate_all : Calculator F → Capsule → List (NodeState F) → List (Result F)
    unfolding calculate
    calculate_all calc c nodes = map (λ n. calculate calc c n) nodes
