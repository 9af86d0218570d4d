-- ===== src/Scaling/Monitor.antt =====
-- capsule/scaling/registry.go and capsule/scaling/monitor.go, with `ResetAllCooldowns` of
-- evaluator.go. A provider is the function from a metric to its value, and the handler is the list
-- of the events it gets. A tick visits the capsules in the order of the map, where Go's is any.
pub mod Forgetting
mod Tests
use text.Mathlib.Text.{starts_with}
use Prim.Native.String.{◌++◌}
use falak.Prelude.{
  ℕ, Bool, true, false, List, [], ◌∷◌, Option, none, some, String, Map, lookup, insert, delete,
  length, string_eq, if◌then◌else◌,
}
use falak.Capsule.Types.{ScalingAction}
use falak.Scaling.{Rule, EvalResult, Evaluator, new_evaluator, evaluate}

pub record ScaleEvent : Type 0 where
  pub capsule_id : String
  pub rule_name : String
  pub action : ScalingAction
  pub timestamp : ℕ

-- `for key := range m { if … { delete(m, key) } }`.
pub drop_keys : {V : Type 0} → String → Map String V → Map String V
drop_keys prefix [] = []
drop_keys prefix ((key, v) ∷ m) =
    let rest = drop_keys prefix m in if starts_with key prefix then rest else (key, v) ∷ rest

pub reset_all_cooldowns : Evaluator → String → Evaluator
unfolding drop_keys
reset_all_cooldowns e id = record { cooldowns = drop_keys (id ++ ":") e.cooldowns }

pub event_of : String → ℕ → Option EvalResult → Option ScaleEvent
event_of id now none = none
event_of id now (some r) =
    if r.matched
    then some
        (record { capsule_id = id; rule_name = r.rule_name; action = r.action; timestamp = now })
    else none

abbrev pub sent_before : Option ScaleEvent → List ScaleEvent → List ScaleEvent
sent_before none more = more
sent_before (some event) more = event ∷ more

module _ (F : Type 0) where
  abbrev pub MetricsProvider : Type 0
  MetricsProvider = String → Option F

  pub record InMemoryRegistry : Type 0 where
    pub providers : Map String (String → Option F)

  pub record CapsuleMetrics : Type 0 where
    pub capsule_id : String
    pub rules : List (Rule F)
    pub metrics : Option (String → Option F)

  -- `registry` is what the option `WithMonitorRegistry` left, if it was given.
  pub record Monitor : Type 0 where
    pub evaluator : Evaluator
    pub capsules : Map String (CapsuleMetrics)
    pub registry : Option (InMemoryRegistry)
    pub interval : ℕ

module _ {F : Type 0} where
  pub new_in_memory_registry : InMemoryRegistry F
  new_in_memory_registry = record { providers = [] }

  pub register_provider : InMemoryRegistry F → String → (String → Option F) → InMemoryRegistry F
  register_provider r id p = record { providers = insert id p r.providers }

  pub unregister_provider : InMemoryRegistry F → String → InMemoryRegistry F
  unregister_provider r id = record { providers = delete id r.providers }

  pub get_provider : InMemoryRegistry F → String → Option (String → Option F)
  get_provider r id = lookup id r.providers

  pub count_providers : InMemoryRegistry F → ℕ
  count_providers r = length r.providers

  -- The interval is 10 s until an option sets it.
  pub new_monitor : Option (InMemoryRegistry F) → Option ℕ → Monitor F
  new_monitor r i = record {
    evaluator = new_evaluator;
    capsules = [];
    registry = r;
    interval = elim i [ none ↦ 10000000000 | some d ↦ d ];
  }

  pub register : Monitor F → CapsuleMetrics F → Monitor F
  register m cm = record m { capsules = insert cm.capsule_id cm m.capsules }

  pub unregister : Monitor F → String → Monitor F
  unfolding reset_all_cooldowns
  unregister m id = record m {
    capsules = delete id m.capsules;
    evaluator = reset_all_cooldowns m.evaluator id;
  }

  pub provider_of : Option (InMemoryRegistry F) → CapsuleMetrics F → Option (String → Option F)
  unfolding get_provider
  provider_of none cm = cm.metrics
  provider_of (some r) cm = elim (get_provider r cm.capsule_id) [
    | none ↦ cm.metrics
    | some p ↦ some p
  ]

  module _ (lt eq : F → F → Bool) where
    pub evaluate_capsule :
        Option (InMemoryRegistry F)
        → ℕ
        → CapsuleMetrics F
        → Evaluator
        → Evaluator × Option ScaleEvent
    unfolding provider_of event_of evaluate
    evaluate_capsule registry now cm e = elim (provider_of registry cm) [
      | none ↦ (e, none)
      | some p ↦
          let (next, result) = evaluate lt eq e now cm.capsule_id cm.rules p in
          (next, event_of cm.capsule_id now result)
    ]

    pub evaluate_each :
        Option (InMemoryRegistry F)
        → ℕ
        → Map String (CapsuleMetrics F)
        → Evaluator
        → Evaluator × List ScaleEvent
    unfolding evaluate_capsule
    evaluate_each registry now [] e = (e, [])
    evaluate_each registry now ((id, cm) ∷ rest) e =
        let (next, sent) = evaluate_capsule registry now cm e in
        let (last, more) = evaluate_each registry now rest next in (last, sent_before sent more)

    -- `Monitor.evaluate`, one tick.
    pub evaluate_tick : Monitor F → ℕ → Monitor F × List ScaleEvent
    unfolding evaluate_each
    evaluate_tick m now =
        let (next, sent) = evaluate_each m.registry now m.capsules m.evaluator in
        (record m { evaluator = next }, sent)
