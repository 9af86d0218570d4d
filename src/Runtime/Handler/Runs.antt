-- ===== src/Runtime/Handler/Runs.antt =====
-- Any run of a handler of runtime/handler.go.
use falak.Prelude.{ℕ, Bool, List, [], ◌∷◌, Option, String, nat_eq, list_eq}
use falak.Shared.Paths.{Bytes}
use falak.Runtime.Handler.{
  Handler, CapsuleSpec, Outcomes, Seen, start_container, capture_snapshot, tick, on_unhealthy,
  stop_all,
}
use falak.Runtime.Handler.Rolling.{rolling_update, stop_container}

-- What happens at a handler: elections that were won, snapshots that are captured, ticks of the
-- watchers, health checkers that report, updates and stops.
pub data Move : Type 0 where
  won : String → String → Option CapsuleSpec → Bool → Bool → Outcomes → Move
  captured : Bytes → String → CapsuleSpec → Bool → Bool → Move
  ticked : ℕ → Seen → Bool → Move
  reported : ℕ → Move
  updated : String → String → CapsuleSpec → Outcomes → Bool → Move
  stopped_by_user : String → String → Bool → Move
  shut_down : Move

unfoldable pub step : Handler → Move → Handler
step h (won capsule_id replica_id spec local pulled o) =
    start_container h capsule_id replica_id spec local pulled o
step h (captured c capsule_id spec checkpoints starts) =
    capture_snapshot h c capsule_id spec checkpoints starts
step h (ticked w seen starts) = tick h w seen starts
step h (reported w) = on_unhealthy h w
step h (updated capsule_id replica_id spec o healthy) =
    (rolling_update h capsule_id replica_id spec o healthy).0
step h (stopped_by_user capsule_id replica_id stops) =
    (stop_container h capsule_id replica_id stops).0
step h shut_down = stop_all h

unfoldable pub run : Handler → List Move → Handler
unfolding step
run h [] = h
run h (m ∷ ms) = run (step h m) ms
