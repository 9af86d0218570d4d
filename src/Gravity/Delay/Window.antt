-- ===== src/Gravity/Delay/Window.antt =====
-- When the nodes of election/delay/strategy.go publish.
use falak.Prelude.{ℕ, ◌+◌, String}
use falak.Capsule.Store.{Capsule}
use falak.Election.Types.{Request}
use falak.Gravity.Floats.{Floats}
use falak.Gravity.Eligibility.{NodeState, Reason, Ineligibility}
use falak.Gravity.Calculator.{Calculator, calculate}
use falak.Gravity.Delay.{Strategy, wait_for_score, replica_slot_stagger}

module _ {F : Type 0} (f : Floats F) (duration_of bits_of : F → ℕ)
    (detail_of : Reason → String → String) (why_not : Ineligibility → String) (s : Strategy)
    (req : Request) (c : Capsule) (calc : Calculator F) where
  -- The wait before the jitter: the score's, and the slot's.
  abbrev pub planned_wait : NodeState F → ℕ
  planned_wait n =
      wait_for_score f duration_of bits_of (calculate f detail_of calc c n).score s.max_wait
      + replica_slot_stagger req.replica_id s.replica_stagger
