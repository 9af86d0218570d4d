-- ===== src/Scaling/Tests.antt =====
-- The theorems about scaling at concrete rules; a metric is a number.
use falak.Prelude.{
  ℕ, ◌≡◌, refl, true, [], ◌∷◌, Option, none, some, String, lookup, keep, all, string_eq, ◌==◌, ltb,
  nat_beq, if◌then◌else◌,
}
use falak.Capsule.Types.{any_of, scale_up}
use falak.Scaling.{
  Condition, Rule, EvalResult, greater_than, new_evaluator, cooldown_key, is_in_cooldown,
  evaluate_condition, is_met, evaluate_any, evaluate_rule, record_cooldown, evaluate,
}
use falak.Scaling.Firing.{fired, is_ready, rests, evaluate_lem}
use falak.Scaling.Schedule.{is_timed}

abbrev hot : Condition ℕ
hot = record { metric = "cpu"; operator = greater_than; value = 70; unit = "%"; raw = "cpu > 70%" }

abbrev timed : Condition ℕ
timed = record {
  metric = "schedule";
  operator = greater_than;
  value = 0;
  unit = "";
  raw = "schedule: weekdays 8-18";
}

abbrev grow : Rule ℕ
grow = record {
  name = "grow";
  trigger = any_of;
  conditions = timed ∷ hot ∷ [];
  action = scale_up;
  cooldown = 60;
}

abbrev cpu_at : ℕ → String → Option ℕ
cpu_at load metric = if metric == "cpu" then some load else none

evaluate_lem_example :
    evaluate ltb nat_beq new_evaluator 5 "web" (grow ∷ []) (cpu_at 80)
    ≡ fired ltb nat_beq new_evaluator 5 "web"
        (keep (is_ready ltb nat_beq new_evaluator 5 "web" (cpu_at 80)) (grow ∷ []))
evaluate_lem_example = evaluate_lem ltb nat_beq new_evaluator 5 "web" (grow ∷ []) (cpu_at 80)

abbrev grown : EvalResult
grown = record { rule_name = "grow"; action = scale_up; matched = true }

grow-fires : (evaluate ltb nat_beq new_evaluator 5 "web" (grow ∷ []) (cpu_at 80)).1 ≡ some grown
unfolding evaluate evaluate_rule evaluate_any is_met evaluate_condition is_in_cooldown new_evaluator
    record_cooldown cooldown_key lookup
grow-fires = refl

grow-rests : all (rests ltb nat_beq "grow" 5 64) (grow ∷ []) ≡ true
unfolding all
grow-rests = refl

timed-timed : all (is_timed ltb nat_beq) (timed ∷ []) ≡ true
unfolding all
timed-timed = refl
