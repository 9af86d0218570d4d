-- ===== src/Scaling.antt =====
-- capsule/scaling: the conditions of rule.go and evaluator.go. A metric's value is a float64, of a
-- type `F` with the tests `<` and `==` of Go as arguments; the provider of metrics is a function.
-- Times are numbers of nanoseconds, and so is a cooldown (validation refuses a negative one).
-- Parsing is not modelled: a rule here has its conditions parsed.
mod Firing
pub mod Monitor
mod Schedule
mod Tests
use Prim.Native.String.{◌++◌}
use falak.Prelude.{
  ℕ, ◌+◌, Bool, true, false, not, ◌||◌, List, [], ◌∷◌, Option, none, some, String, Map, lookup,
  insert, delete, nat_beq, string_eq, ◌==◌, ltb, if◌then◌else◌,
}
use falak.Capsule.Types.{TriggerMode, any_of, all_of, other_mode, ScalingAction}

pub data Operator : Type 0 where
  greater_than less_than equal greater_eq less_eq : Operator
  other_operator : String → Operator

module _ (F : Type 0) where
  pub record Condition : Type 0 where
    pub metric : String
    pub operator : Operator
    pub value : F
    pub unit : String
    pub raw : String

  pub record Rule : Type 0 where
    pub name : String
    pub trigger : TriggerMode
    pub conditions : List Condition
    pub action : ScalingAction
    pub cooldown : ℕ

pub record EvalResult : Type 0 where
  pub rule_name : String
  pub action : ScalingAction
  pub matched : Bool

pub record Evaluator : Type 0 where
  pub cooldowns : Map String ℕ

pub new_evaluator : Evaluator
new_evaluator = record { cooldowns = [] }

pub cooldown_key : String → String → String
cooldown_key id name = (id ++ ":") ++ name

-- `now` is before the last firing plus the cooldown.
abbrev pub cools : ℕ → ℕ → Option ℕ → Bool
cools cooldown now none = false
cools cooldown now (some last) = ltb now (last + cooldown)

pub is_in_cooldown : Evaluator → String → ℕ → ℕ → Bool
is_in_cooldown e key cooldown now =
    if nat_beq cooldown 0 then false else cools cooldown now (lookup key e.cooldowns)

pub record_cooldown : Evaluator → String → ℕ → Evaluator
record_cooldown e key now = record { cooldowns = insert key now e.cooldowns }

pub reset_cooldown : Evaluator → String → String → Evaluator
unfolding cooldown_key
reset_cooldown e id name = record { cooldowns = delete (cooldown_key id name) e.cooldowns }

module _ {F : Type 0} (lt eq : F → F → Bool) where
  -- `Condition.Evaluate`.
  pub evaluate_condition : Condition F → F → Bool
  evaluate_condition c v = elim c.operator [
    | greater_than ↦ lt c.value v
    | less_than ↦ lt v c.value
    | equal ↦ eq v c.value
    | greater_eq ↦ lt c.value v || eq v c.value
    | less_eq ↦ lt v c.value || eq v c.value
    | other_operator s ↦ false
  ]

  -- What the provider has for the condition's metric, and whether it meets the condition.
  pub is_met : (String → Option F) → Condition F → Bool
  unfolding evaluate_condition
  is_met metrics c = elim (metrics c.metric) [ none ↦ false | some v ↦ evaluate_condition c v ]

  pub evaluate_all : List (Condition F) → (String → Option F) → Bool
  unfolding is_met
  evaluate_all [] metrics = true
  evaluate_all (c ∷ cs) metrics =
      let rest = evaluate_all cs metrics in
      if c.metric == "schedule" then rest else if is_met metrics c then rest else false

  pub evaluate_any : List (Condition F) → (String → Option F) → Bool
  unfolding is_met
  evaluate_any [] metrics = false
  evaluate_any (c ∷ cs) metrics =
      let rest = evaluate_any cs metrics in
      if c.metric == "schedule" then rest else if is_met metrics c then true else rest

  pub evaluate_rule : Rule F → (String → Option F) → Bool
  unfolding evaluate_all evaluate_any
  evaluate_rule r metrics = elim r.trigger [
    | all_of ↦ evaluate_all r.conditions metrics
    | any_of ↦ evaluate_any r.conditions metrics
    | other_mode s ↦ false
  ]

  pub evaluate :
      Evaluator → ℕ → String → List (Rule F) → (String → Option F) → Evaluator × Option EvalResult
  unfolding cooldown_key is_in_cooldown record_cooldown evaluate_rule
  evaluate e now id [] metrics = (e, none)
  evaluate e now id (r ∷ rs) metrics =
      let rest = evaluate e now id rs metrics in
      if is_in_cooldown e (cooldown_key id r.name) r.cooldown now
      then rest
      else if evaluate_rule r metrics
      then (
        record_cooldown e (cooldown_key id r.name) now,
        some (record { rule_name = r.name; action = r.action; matched = true }),
      )
      else rest
