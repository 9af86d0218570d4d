-- ===== src/Momentum/Tests.antt =====
-- The theorems about momentum at a concrete tracker.
use falak.Prelude.{ℕ, ◌-◌, ◌^◌, true, List, [], ◌∷◌, arith}
use falak.Prelude.Int.{pos, ◌≤ℤ◌, ◌+ℤ◌}
use falak.Momentum.{Tracker}
use falak.Momentum.Bounds.{Call, boosts, reduces, resets, sets, run, InBounds, run-InBounds}

abbrev web : Tracker
web = record {
  capsule_id = "web";
  state = record { current = pos 98; base = pos 90; last_adjusted = 0 };
  config = record {
    base = pos 90;
    boost_on_traffic = true;
    reduce_on_idle = true;
    idle_timeout = pos 0;
  };
  min_momentum = pos 0;
  max_momentum = pos 100;
  boost_amount = pos 5;
  reduce_amount = pos 5;
}

web-InBounds : InBounds web
web-InBounds = record {
  current_low = ground arith;
  current_high = ground arith;
  base_low = ground arith;
  base_high = ground arith;
}

abbrev busy : List (ℕ × Call)
busy = (1, boosts) ∷ (2, boosts) ∷ (3, sets (pos 500)) ∷ (4, reduces) ∷ (5, resets) ∷ []

run-InBounds_example : InBounds (run web busy)
run-InBounds_example = run-InBounds web busy web-InBounds

sum-small : (pos 98 +ℤ pos 5) ≤ℤ pos (2 ^ 31 - 1)
unfolding ◌+ℤ◌
sum-small = ground arith
