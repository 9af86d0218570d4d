-- ===== src/Orbit.antt =====
-- HandleMessage of capsule/orbit/announcement.go and the signed layout of capsule/orbit/signing.go.
-- Times are numbers of nanoseconds. The hash, the unmarshalling of envelopes and payloads and the
-- verifier are arguments; a verifier that is not configured is `none`.
mod Replay
mod Tests
use falak.Prelude.{
  ℕ, ◌+◌, Bool, true, false, not, ◌||◌, List, [], ◌∷◌, Option, none, some, ltb, is_nil, Eq, ◌==◌,
  list_eq, nat_eq, if◌then◌else◌,
}
use falak.Shared.Paths.{bytes}
use falak.Signing.{Bytes, append_field, timestamp_bytes}
use falak.Guard.Dedup.{Deduplicator, is_duplicate_orbit}

pub record OrbitEnvelope : Type 0 where
  pub kind : Bytes
  pub payload : Bytes
  pub sender_id : Bytes
  pub timestamp : Option ℕ
  pub signature : Bytes

-- The content is that of the envelope without its signature.
pub orbit_content : OrbitEnvelope → Bytes
orbit_content e =
    append_field (append_field (append_field (append_field [] e.kind) e.payload) e.sender_id)
      (timestamp_bytes e.timestamp)

-- 30 seconds.
abbrev pub max_message_age : ℕ
max_message_age = 30000000000

pub data MessageError : Type 0 where
  duplicate_message malformed stale_message missing_signature invalid_signature : MessageError
  bad_payload unknown_type : MessageError

pub data Handled (P : Type 0) : Type 0 where
  accepted : P → Handled P
  refused : MessageError → Handled P

-- A message without a time is not stale.
pub is_old : ℕ → Option ℕ → Bool
is_old now none = false
is_old now (some sent) = ltb (sent + max_message_age) now

pub signature_error : Option (Bytes → Bytes → Bytes → Bool) → OrbitEnvelope → Option MessageError
signature_error none e = none
signature_error (some verify) e =
    if is_nil e.signature
    then some missing_signature
    else if verify e.sender_id (orbit_content e) e.signature
    then none
    else some invalid_signature

pub is_known_kind : Bytes → Bool
is_known_kind kind =
    kind == bytes "announcement" || kind == bytes "status" || kind == bytes "withdrawal"

module _ {P : Type 0} (unmarshal_payload : Bytes → Bytes → Option P) where
  pub payload_of : OrbitEnvelope → Handled P
  unfolding is_known_kind
  payload_of e =
      if not (is_known_kind e.kind)
      then refused unknown_type
      else (elim (unmarshal_payload e.kind e.payload) [
        | none ↦ refused bad_payload
        | some p ↦ accepted p
      ])

  pub checked : Option (Bytes → Bytes → Bytes → Bool) → ℕ → Option OrbitEnvelope → Handled P
  unfolding is_old signature_error payload_of
  checked verifier now none = refused malformed
  checked verifier now (some e) =
      if is_old now e.timestamp
      then refused stale_message
      else (elim (signature_error verifier e) [ some err ↦ refused err | none ↦ payload_of e ])

  module _ {ℓ} {K : Type ℓ} ⦃eq : Eq K⦄ (sha256 : Bytes → K)
      (unmarshal : Bytes → Option OrbitEnvelope)
      (verifier : Option (Bytes → Bytes → Bytes → Bool)) where
    pub handle_message : Deduplicator K → ℕ → Bytes → Deduplicator K × Handled P
    unfolding checked
    handle_message d now raw =
        let (d', duplicate) = is_duplicate_orbit sha256 d now raw in
        (d', if duplicate then refused duplicate_message else checked verifier now (unmarshal raw))
