-- ===== src/Gravity/Weights.antt =====
-- election/gravity/weights.go.
use falak.Prelude.{if◌then◌else◌}
use falak.Gravity.Floats.{Floats}

pub record Weights (F : Type 0) : Type 0 where
  pub cpu_headroom : F
  pub memory_headroom : F
  pub disk_headroom : F
  pub soft_placement_match : F
  pub affinity_proximity : F
  pub hardware_label_match : F
  pub load_penalty : F
  pub reliability : F
  pub diversity : F
  pub snapshot_locality : F

module _ {F : Type 0} (f : Floats F) where
  -- `if override.X != 0 { out.X = override.X }`.
  pub over : F → F → F
  over base override = if f.is_zero override then base else override

  pub merge : Weights F → Weights F → Weights F
  unfolding over
  merge w override = record {
    cpu_headroom = over w.cpu_headroom override.cpu_headroom;
    memory_headroom = over w.memory_headroom override.memory_headroom;
    disk_headroom = over w.disk_headroom override.disk_headroom;
    soft_placement_match = over w.soft_placement_match override.soft_placement_match;
    affinity_proximity = over w.affinity_proximity override.affinity_proximity;
    hardware_label_match = over w.hardware_label_match override.hardware_label_match;
    load_penalty = over w.load_penalty override.load_penalty;
    reliability = over w.reliability override.reliability;
    diversity = over w.diversity override.diversity;
    snapshot_locality = over w.snapshot_locality override.snapshot_locality;
  }

  pub max_possible_score : Weights F → F
  max_possible_score w =
      f.plus
        (f.plus
          (f.plus
            (f.plus
              (f.plus
                (f.plus (f.plus (f.plus w.cpu_headroom w.memory_headroom) w.disk_headroom)
                  w.soft_placement_match)
                w.affinity_proximity)
              w.hardware_label_match)
            w.reliability)
          w.diversity)
        w.snapshot_locality
