-- ===== src/Gravity/Samples.antt =====
-- Test data: fixed-point numbers with two digits in place of floats, and a node.
use falak.Prelude.{
  ℕ, ◌+◌, ◌-◌, ◌*◌, ◌/◌, refl, ltb, leb, nat_beq, [], ◌∷◌, String, string_eq, arith,
}
use falak.Prelude.Int.{pos, pos_part}
use falak.Phonebook.{active}
use falak.Gravity.Floats.{Floats, IsLawful}
use falak.Gravity.Eligibility.{NodeState, Reason, TargetLookup}
use falak.Gravity.Weights.{Weights}

abbrev pub fixed_point : Floats ℕ
fixed_point = record {
  of_int = λ i. pos_part i * 100;
  zero = 0;
  one = 100;
  fifty = 5000;
  hundred = 10000;
  plus = λ a b. a + b;
  minus = λ a b. a - b;
  mul = λ a b. a * b / 100;
  div = λ a b. a * 100 / b;
  less = ltb;
  at_most = leb;
  is_zero = λ a. nat_beq a 0;
}

pub fixed_point-IsLawful : IsLawful fixed_point
fixed_point-IsLawful = record {
  less_irrefl = λ x. ground arith;
  zero-less-one = refl;
  mul-hundred = λ x h. record { above = ground arith; below = (let k = h.below in grind arith) };
  fifty_in = record { above = refl; below = refl };
  zero_in = record { above = refl; below = refl };
}

abbrev pub gpu_node : NodeState ℕ
gpu_node = record {
  node_id = "gpu-1";
  cluster_path = "local";
  datacenter = "b1";
  region = "eu";
  labels = ("app", "web") ∷ ("zone", "a") ∷ [];
  resources = record {
    cpu_cores_total = pos 8;
    cpu_cores_free = pos 5;
    memory_mb_total = pos 1024;
    memory_mb_free = pos 768;
    disk_mb_total = pos 0;
    disk_mb_free = pos 0;
  };
  status = active;
  reliability_score = 100;
  running_capsule_count = 0;
}

-- No capsule runs anywhere.
abbrev pub nowhere : TargetLookup
nowhere path name = []

abbrev pub plain_weights : Weights ℕ
plain_weights = record {
  cpu_headroom = 100;
  memory_headroom = 100;
  disk_headroom = 100;
  soft_placement_match = 100;
  affinity_proximity = 100;
  hardware_label_match = 100;
  load_penalty = 100;
  reliability = 100;
  diversity = 100;
  snapshot_locality = 0;
}

abbrev pub reason_text : Reason → String → String
reason_text why name = name
