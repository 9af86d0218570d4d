-- ===== src/Node/Slots/Tests.antt =====
-- The slot of a scale-up for a concrete capsule.
use falak.Prelude.{◌≢◌, [], ◌∷◌, All, arith, refl, ◌≡◌}
use falak.Prelude.Int.{pos, negsuc}
use falak.Shared.Paths.{bytes}
use falak.Capsule.Types.{running}
use falak.Capsule.Store.{Capsule}
use falak.Capsule.Samples.{web_at}
use falak.Node.Slots.{
  highest_slot, parse_replica_slot, scan_signed, scan_number, scan_digits, is_digit, is_space,
  skip_space, next_replica_slot,
}
use falak.Node.Slots.Fresh.{next_replica_slot_fresh}

-- Slot 1 has been removed.
abbrev scaled : Capsule
scaled = record (web_at running) {
  replicas =
      record { replica_id = "0"; node_id = "a"; status = running; started_at = 0 }
      ∷ record { replica_id = "2"; node_id = "b"; status = running; started_at = 0 }
      ∷ [];
}

scaled-highest : highest_slot (negsuc 0) scaled.replicas ≡ pos 2
unfolding highest_slot parse_replica_slot scan_signed scan_number scan_digits is_digit is_space
    skip_space
scaled-highest = refl

next_replica_slot_fresh_example :
    All (λ r. bytes r.replica_id ≢ next_replica_slot scaled) scaled.replicas
next_replica_slot_fresh_example = next_replica_slot_fresh scaled (rw scaled-highest (omega arith))
