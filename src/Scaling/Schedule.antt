-- ===== src/Scaling/Schedule.antt =====
-- Schedule conditions in capsule/scaling/evaluator.go, whose evaluation is left out there.
use falak.Prelude.{
  ◌≡◌, refl, Bool, true, false, List, [], ◌∷◌, Option, String, all, string_eq, ◌==◌, arith, keep,
  any, not,
}
use falak.Scaling.{Condition, is_met, evaluate_all, evaluate_any}

module _ {F : Type 0} (lt eq : F → F → Bool) where
  abbrev pub is_timed : Condition F → Bool
  is_timed c = c.metric == "schedule"

  -- Schedules count for nothing: an `all` rule is met when every other condition is, and an `any`
  -- rule when one of the others is.
  pub evaluate_all_lem :
      (cs : List (Condition F)) (metrics : String → Option F)
      → (evaluate_all lt eq cs metrics
          ≡ all (is_met lt eq metrics) (keep (λ c. not (is_timed c)) cs))
        × (evaluate_any lt eq cs metrics
            ≡ any (is_met lt eq metrics) (keep (λ c. not (is_timed c)) cs))
  unfolding evaluate_all evaluate_any keep all any
  evaluate_all_lem [] metrics = (refl, refl)
  evaluate_all_lem (c ∷ cs) metrics = ground (arith, evaluate_all_lem cs metrics)

  -- A list of schedules alone always meets an `all` rule, whatever the time and the metrics, and
  -- never an `any` rule.
  pub evaluate_all-timed :
      (cs : List (Condition F)) (metrics : String → Option F)
      → all is_timed cs ≡ true
      → (evaluate_all lt eq cs metrics ≡ true) × (evaluate_any lt eq cs metrics ≡ false)
  unfolding evaluate_all evaluate_any all
  evaluate_all-timed [] metrics h = (refl, refl)
  evaluate_all-timed (c ∷ cs) metrics h = ground (arith, evaluate_all-timed cs metrics)
