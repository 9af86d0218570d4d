-- ===== src/Signing/Injective.antt =====
-- The bytes of node/internal/signing/buffer.go and of election/topic.go read back.
use mathlib.Core.List.{append-nil, append_assoc}
use falak.Prelude.{
  ℕ, ◌<◌, ◌^◌, ◌≡◌, refl, sym, ap, ◌∙◌, Bool, true, false, List, [], ◌∷◌, ◌++◌, Option, none, some,
  length, All, arith,
}
use falak.Signing.{
  Bytes, Buffer, ElectionMessage, put_uint32, put_uint64, new_buffer, write_field, write_bool,
  write_each, write_strings, append_field, timestamp_bytes, canonical_content,
}
use falak.Signing.Fields.{
  Fits, put_uint32-injective, append-split, put_uint32_same_length, prefixed, prefixed_all,
  prefixed-split, prefixed_all-split, put_uint64-injective,
}

-- The calls that a client chains on one buffer.
pub data Write : Type 0 where
  field : Bytes → Write
  flag : Bool → Write
  strings : List Bytes → Write

abbrev pub write : Buffer → Write → Buffer
write b (field a) = write_field b a
write b (flag v) = write_bool b v
write b (strings ss) = write_strings b ss

abbrev pub write_all : Buffer → List Write → Buffer
write_all b [] = b
write_all b (w ∷ ws) = write_all (write b w) ws

-- Two calls of one method.
abbrev pub SameMethod : Write → Write → Type 0
SameMethod (field a) (field b) = Unit
SameMethod (flag u) (flag v) = Unit
SameMethod (strings ss) (strings ts) = Unit
SameMethod _ _ = ⊥

abbrev pub SameMethods : List Write → List Write → Type 0
SameMethods [] [] = Unit
SameMethods (w ∷ ws) (v ∷ vs) = SameMethod w v × SameMethods ws vs
SameMethods _ _ = ⊥

abbrev pub WriteFits : Write → Type 0
WriteFits (field a) = Fits a
WriteFits (flag v) = Unit
WriteFits (strings ss) = (length ss < 2 ^ 32) × All Fits ss

encoded : Write → Bytes
unfolding prefixed prefixed_all
encoded (field a) = prefixed a
encoded (flag true) = 1 ∷ []
encoded (flag false) = 0 ∷ []
encoded (strings ss) = put_uint32 (length ss) ++ prefixed_all ss

encoded_all : List Write → Bytes
encoded_all [] = []
encoded_all (w ∷ ws) = encoded w ++ encoded_all ws

buf-write_each : (b : Buffer) (ss : List Bytes) → (write_each b ss).buf ≡ b.buf ++ prefixed_all ss
unfolding write_each write_field prefixed_all
buf-write_each b [] = sym (append-nil b.buf)
buf-write_each b (s ∷ ss) =
    buf-write_each (write_field b s) ss ∙ append_assoc b.buf (prefixed s) (prefixed_all ss)

buf-write : (b : Buffer) (w : Write) → (write b w).buf ≡ b.buf ++ encoded w
unfolding write_field write_bool write_strings encoded
buf-write b (field a) = refl
buf-write b (flag true) = refl
buf-write b (flag false) = refl
buf-write b (strings ss) =
    buf-write_each (record { buf = b.buf ++ put_uint32 (length ss) }) ss
    ∙ append_assoc b.buf (put_uint32 (length ss)) (prefixed_all ss)

buf-write_all : (b : Buffer) (ws : List Write) → (write_all b ws).buf ≡ b.buf ++ encoded_all ws
unfolding encoded_all
buf-write_all b [] = sym (append-nil b.buf)
buf-write_all b (w ∷ ws) =
    buf-write_all (write b w) ws
    ∙ ap (λ x. x ++ encoded_all ws) (buf-write b w)
    ∙ append_assoc b.buf (encoded w) (encoded_all ws)

encoded-split :
    (w v : Write) (r s : Bytes)
    → SameMethod w v
    → WriteFits w
    → WriteFits v
    → encoded w ++ r ≡ encoded v ++ s
    → (w ≡ v) × (r ≡ s)
unfolding encoded
encoded-split (field a) (field b) r s m p q h = let (e, t) = prefixed-split a b r s p q h in (cc, t)
encoded-split (flag true) (flag true) r s m p q h = (refl, cc)
encoded-split (flag false) (flag false) r s m p q h = (refl, cc)
encoded-split (flag true) (flag false) r s m p q h = absurd (ground arith)
encoded-split (flag false) (flag true) r s m p q h = absurd (ground arith)
encoded-split (strings ss) (strings ts) r s m p q h =
    let (heads, rest) =
      append-split (put_uint32 (length ss)) (put_uint32 (length ts)) _ _
        (put_uint32_same_length (length ss) (length ts))
        (sym (append_assoc (put_uint32 (length ss)) (prefixed_all ss) r)
          ∙ h
          ∙ append_assoc (put_uint32 (length ts)) (prefixed_all ts) s) in
    let (e, t) =
      prefixed_all-split ss ts r s (put_uint32-injective _ _ p.0 q.0 heads) p.1 q.1 rest in
    (cc, t)
encoded-split (field a) (flag v) r s m p q h = absurd m
encoded-split (field a) (strings ts) r s m p q h = absurd m
encoded-split (flag u) (field b) r s m p q h = absurd m
encoded-split (flag u) (strings ts) r s m p q h = absurd m
encoded-split (strings ss) (field b) r s m p q h = absurd m
encoded-split (strings ss) (flag v) r s m p q h = absurd m

encoded_all-injective :
    (ws vs : List Write)
    → SameMethods ws vs
    → All WriteFits ws
    → All WriteFits vs
    → encoded_all ws ≡ encoded_all vs
    → ws ≡ vs
unfolding encoded_all
encoded_all-injective [] [] m p q h = refl
encoded_all-injective [] (v ∷ vs) m p q h = absurd m
encoded_all-injective (w ∷ ws) [] m p q h = absurd m
encoded_all-injective (w ∷ ws) (v ∷ vs) m p q h =
    let (e, t) = encoded-split w v _ _ m.0 p.0 q.0 h in
    let rest = encoded_all-injective ws vs m.1 p.1 q.1 t in cc

-- Two chains of the same calls on fresh buffers, each field shorter than 2³² bytes and each list
-- of strings shorter than 2³² entries, leave the same bytes only when all their arguments agree.
pub write_all-injective :
    (ws vs : List Write) (c d : ℕ)
    → SameMethods ws vs
    → All WriteFits ws
    → All WriteFits vs
    → (write_all (new_buffer c) ws).buf ≡ (write_all (new_buffer d) vs).buf
    → ws ≡ vs
unfolding new_buffer
write_all-injective ws vs c d m p q h =
    encoded_all-injective ws vs m p q
      (sym (buf-write_all (new_buffer c) ws) ∙ h ∙ buf-write_all (new_buffer d) vs)

-- The content that an election message is signed over.
prefixed_parts :
    (a b c d : Bytes)
    → append_field (append_field (append_field (append_field [] a) b) c) d
      ≡ prefixed a ++ (prefixed b ++ (prefixed c ++ (prefixed d ++ [])))
unfolding append_field prefixed
prefixed_parts a b c d = simp (append_assoc, append-nil)

-- A time that `UnixNano` gives.
abbrev pub TimestampFits : Option ℕ → Type 0
TimestampFits none = Unit
TimestampFits (some nanos) = nanos < 2 ^ 64

timestamp_bytes-Fits : (t : Option ℕ) → Fits (timestamp_bytes t)
unfolding timestamp_bytes put_uint64
timestamp_bytes-Fits none = omega arith
timestamp_bytes-Fits (some n) = omega arith

timestamp_bytes-injective :
    (t u : Option ℕ)
    → TimestampFits t
    → TimestampFits u
    → timestamp_bytes t ≡ timestamp_bytes u
    → t ≡ u
unfolding timestamp_bytes
timestamp_bytes-injective none none p q h = refl
timestamp_bytes-injective none (some m) p q h = absurd (unfold put_uint64 in cc)
timestamp_bytes-injective (some n) none p q h = absurd (unfold put_uint64 in cc)
timestamp_bytes-injective (some n) (some m) p q h = ap some (put_uint64-injective n m p q h)

-- The lengths and the time of a message are in range.
pub record MessageFits (msg : ElectionMessage) : Type 0 where
  pub kind_fits : Fits msg.kind
  pub payload_fits : Fits msg.payload
  pub sender_id_fits : Fits msg.sender_id
  pub timestamp_fits : TimestampFits msg.timestamp

-- Two election messages whose fields are in range are signed over the same bytes only when they
-- agree in type, payload, sender and timestamp.
pub canonical_content-injective :
    (x y : ElectionMessage)
    → MessageFits x
    → MessageFits y
    → canonical_content x ≡ canonical_content y
    → x ≡ y
unfolding canonical_content
canonical_content-injective x y p q h =
    let (e1, r1) = prefixed-split x.kind y.kind _ _ p.kind_fits q.kind_fits (
      sym (prefixed_parts x.kind x.payload x.sender_id (timestamp_bytes x.timestamp))
      ∙ h
      ∙ prefixed_parts y.kind y.payload y.sender_id (timestamp_bytes y.timestamp)) in
    let (e2, r2) = prefixed-split x.payload y.payload _ _ p.payload_fits q.payload_fits r1 in
    let (e3, r3) =
      prefixed-split x.sender_id y.sender_id _ _ p.sender_id_fits q.sender_id_fits r2 in
    let (e4, r4) =
      prefixed-split (timestamp_bytes x.timestamp) (timestamp_bytes y.timestamp) _ _
        (timestamp_bytes-Fits x.timestamp) (timestamp_bytes-Fits y.timestamp) r3 in
    let e5 =
      timestamp_bytes-injective x.timestamp y.timestamp p.timestamp_fits q.timestamp_fits e4 in
    ground arith
