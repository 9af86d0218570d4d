-- ===== src/Orbit/Tests.antt =====
-- The theorem about replays on a concrete message.
use falak.Prelude.{ℕ, ◌≡◌, ◌⊎◌, refl, [], ◌∷◌, List, none, some, lookup, list_eq, nat_eq, arith}
use falak.Shared.Paths.{bytes}
use falak.Signing.{Bytes}
use falak.Guard.Dedup.{Deduplicator, is_duplicate_orbit}
use falak.Guard.Dedup.Replay.{Call, message, evicts}
use falak.Orbit.{
  OrbitEnvelope, Handled, accepted, refused, duplicate_message, stale_message, is_old,
  signature_error, is_known_kind, payload_of, checked, handle_message,
}
use falak.Orbit.Replay.{run, handle_message-once}

abbrev envelope : OrbitEnvelope
envelope = record {
  kind = bytes "status";
  payload = 1 ∷ [];
  sender_id = 2 ∷ [];
  timestamp = some 10000000000;
  signature = [];
}

abbrev filter : Deduplicator Bytes
filter = record { seen = []; max_age = 300000000000 }

abbrev answer_to : Deduplicator Bytes → ℕ → Bytes → Handled Bytes
answer_to d now raw =
    (handle_message (λ kind payload. some payload) (λ raw. raw) (λ raw. some envelope) none d now
      raw).1

abbrev left_by : Deduplicator Bytes → ℕ → Bytes → Deduplicator Bytes
left_by d now raw =
    (handle_message (λ kind payload. some payload) (λ raw. raw) (λ raw. some envelope) none d now
      raw).0

envelope-accepted : answer_to filter 20000000000 (7 ∷ []) ≡ accepted (1 ∷ [])
unfolding handle_message is_duplicate_orbit lookup checked is_old signature_error payload_of
    is_known_kind
envelope-accepted = refl

-- A cleanup and another message come in between.
abbrev calls : List (Call Bytes)
calls = evicts 30000000000 ∷ message 40000000000 (8 ∷ []) ∷ []

handle_message-once_example :
    let after = run (λ raw. raw) (left_by filter 20000000000 (7 ∷ [])) calls in
    (answer_to after 50000000000 (7 ∷ []) ≡ refused duplicate_message)
    ⊎ (answer_to after 50000000000 (7 ∷ []) ≡ refused stale_message)
handle_message-once_example =
    handle_message-once (λ raw. raw) (λ kind payload. some payload) (λ raw. some envelope) none
      filter 20000000000 50000000000 10000000000 calls (7 ∷ []) envelope (1 ∷ []) tt (omega arith)
      refl refl (omega arith) envelope-accepted (omega arith, (omega arith, tt)) (omega arith)
