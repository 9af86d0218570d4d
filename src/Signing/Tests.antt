-- ===== src/Signing/Tests.antt =====
-- The theorems about the signed layouts at concrete contents.
use falak.Prelude.{◌≡◌, refl, true, List, [], ◌∷◌, some, All, arith}
use falak.Signing.{ElectionMessage, new_buffer}
use falak.Signing.Injective.{
  Write, field, flag, strings, write_all, WriteFits, MessageFits, write_all-injective,
  canonical_content-injective,
}

abbrev orbit_writes : List Write
orbit_writes = field (1 ∷ 2 ∷ []) ∷ flag true ∷ strings ((3 ∷ []) ∷ []) ∷ []

orbit_writes-Fits : All WriteFits orbit_writes
orbit_writes-Fits = ground arith

-- The capacity does not matter.
same_bytes :
    (write_all (new_buffer 64) orbit_writes).buf ≡ (write_all (new_buffer 0) orbit_writes).buf
unfolding new_buffer
same_bytes = refl

write_all-injective_example : orbit_writes ≡ orbit_writes
write_all-injective_example =
    write_all-injective orbit_writes orbit_writes 64 0 (tt, (tt, (tt, tt))) orbit_writes-Fits
      orbit_writes-Fits same_bytes

abbrev claim_message : ElectionMessage
claim_message = record {
  kind = 99 ∷ [];
  payload = 1 ∷ 2 ∷ [];
  sender_id = 7 ∷ [];
  timestamp = some 5;
}

claim_message-Fits : MessageFits claim_message
claim_message-Fits = record {
  kind_fits = ground arith;
  payload_fits = ground arith;
  sender_id_fits = ground arith;
  timestamp_fits = ground arith;
}

canonical_content-injective_example : claim_message ≡ claim_message
canonical_content-injective_example =
    canonical_content-injective claim_message claim_message claim_message-Fits claim_message-Fits
      refl
