-- ===== src/Signing.antt =====
-- node/internal/signing/buffer.go, and the same length-prefixed layout in election/topic.go
-- (`canonicalContent`, `appendField`). A byte is a number; the buffer keeps its bytes in order.
mod Fields
mod Injective
mod Tests
use falak.Prelude.{ℕ, ◌/◌, ◌%◌, ◌^◌, Bool, List, [], ◌∷◌, ◌++◌, Option, none, some, length}
use falak.Prelude.{if◌then◌else◌}

abbrev pub Bytes : Type 0
Bytes = List ℕ

-- `binary.BigEndian.PutUint32` of `uint32(n)`: the low 32 bits, the high byte first.
pub put_uint32 : ℕ → Bytes
put_uint32 n = n / 2 ^ 24 % 256 ∷ n / 2 ^ 16 % 256 ∷ n / 2 ^ 8 % 256 ∷ n % 256 ∷ []

-- `binary.BigEndian.PutUint64` of `uint64(n)`.
pub put_uint64 : ℕ → Bytes
unfolding put_uint32
put_uint64 n = put_uint32 (n / 2 ^ 32) ++ put_uint32 n

pub record Buffer : Type 0 where
  pub buf : Bytes

-- The capacity is a hint for the allocation.
pub new_buffer : ℕ → Buffer
new_buffer capacity = record { buf = [] }

pub write_field : Buffer → Bytes → Buffer
write_field b field = record { buf = b.buf ++ (put_uint32 (length field) ++ field) }

-- A string is its bytes.
pub write_string : Buffer → Bytes → Buffer
unfolding write_field
write_string b s = write_field b s

pub write_bool : Buffer → Bool → Buffer
write_bool b v = record { buf = b.buf ++ (if v then 1 else 0) ∷ [] }

-- The loop of `WriteStrings`.
pub write_each : Buffer → List Bytes → Buffer
unfolding write_string
write_each b [] = b
write_each b (s ∷ ss) = write_each (write_string b s) ss

pub write_strings : Buffer → List Bytes → Buffer
unfolding write_each
write_strings b ss = write_each (record { buf = b.buf ++ put_uint32 (length ss) }) ss

pub reset : Buffer → Buffer
reset b = record { buf = [] }

-- `ElectionMessage` without its signature; a timestamp is its `UnixNano`.
pub record ElectionMessage : Type 0 where
  pub kind : Bytes
  pub payload : Bytes
  pub sender_id : Bytes
  pub timestamp : Option ℕ

pub append_field : Bytes → Bytes → Bytes
append_field buf field = buf ++ (put_uint32 (length field) ++ field)

pub timestamp_bytes : Option ℕ → Bytes
timestamp_bytes none = []
timestamp_bytes (some nanos) = put_uint64 nanos

pub canonical_content : ElectionMessage → Bytes
unfolding append_field timestamp_bytes
canonical_content msg =
    append_field (append_field (append_field (append_field [] msg.kind) msg.payload) msg.sender_id)
      (timestamp_bytes msg.timestamp)
