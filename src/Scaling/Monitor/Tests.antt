-- ===== src/Scaling/Monitor/Tests.antt =====
-- The monitor of capsule/scaling/monitor.go at a concrete capsule; a metric is a number.
use falak.Prelude.{
  ℕ, ◌≡◌, refl, [], ◌∷◌, Option, none, some, String, lookup, insert, string_eq, ◌==◌, ltb, nat_beq,
  if◌then◌else◌,
}
use falak.Capsule.Types.{any_of, scale_up}
use falak.Scaling.{
  Condition, Rule, greater_than, new_evaluator, cooldown_key, is_in_cooldown, evaluate_condition,
  is_met, evaluate_any, evaluate_rule, record_cooldown, evaluate,
}
use falak.Scaling.Monitor.{
  ScaleEvent, CapsuleMetrics, Monitor, register, new_monitor, evaluate_tick, evaluate_each,
  evaluate_capsule, provider_of, event_of,
}

abbrev hot : Condition ℕ
hot = record { metric = "cpu"; operator = greater_than; value = 70; unit = "%"; raw = "cpu > 70%" }

abbrev grow : Rule ℕ
grow = record {
  name = "grow";
  trigger = any_of;
  conditions = hot ∷ [];
  action = scale_up;
  cooldown = 60;
}

abbrev cpu_at : ℕ → String → Option ℕ
cpu_at load metric = if metric == "cpu" then some load else none

abbrev watched : CapsuleMetrics ℕ
watched = record { capsule_id = "web"; rules = grow ∷ []; metrics = some (cpu_at 80) }

abbrev watching : Monitor ℕ
watching = register (new_monitor none none) watched

abbrev fired_once : Monitor ℕ
fired_once = (evaluate_tick ltb nat_beq watching 5).0

abbrev grown_event : ScaleEvent
grown_event = record { capsule_id = "web"; rule_name = "grow"; action = scale_up; timestamp = 5 }

tick-sends : (evaluate_tick ltb nat_beq watching 5).1 ≡ grown_event ∷ []
unfolding evaluate_tick evaluate_each evaluate_capsule provider_of event_of register new_monitor
    insert evaluate evaluate_rule evaluate_any is_met evaluate_condition is_in_cooldown
    new_evaluator record_cooldown cooldown_key lookup
tick-sends = refl

tick-rests : (evaluate_tick ltb nat_beq fired_once 64).1 ≡ []
unfolding evaluate_tick evaluate_each evaluate_capsule provider_of event_of register new_monitor
    insert evaluate evaluate_rule evaluate_any is_met evaluate_condition is_in_cooldown
    new_evaluator record_cooldown cooldown_key lookup
tick-rests = refl
