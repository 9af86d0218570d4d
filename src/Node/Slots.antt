-- ===== src/Node/Slots.antt =====
-- The replica slots of node/capsule_handler.go, with what `fmt` does of the standard library: `%d`
-- prints decimal digits and scans optional space, a sign and the digits that follow.
pub mod Fresh
mod Tests
use falak.Prelude.{
  ℕ, zero, suc, ◌+◌, ◌-◌, ◌*◌, ◌/◌, ◌%◌, ◌^◌, Bool, true, false, ◌&&◌, ◌||◌, List, [], ◌∷◌, ◌++◌,
  Option, none, some, String, leb, ltb, nat_beq, any, if◌then◌else◌,
}
use falak.Prelude.Int.{ℤ, pos, negsuc, ltb_ℤ, ◌+ℤ◌}
use falak.Momentum.{wrap_int32}
use falak.Shared.Paths.{Bytes, bytes}
use falak.Spec.Records.{ReplicaConfig}
use falak.Capsule.Store.{Capsule, ReplicaState}

-- `strconv`'s digits; every step divides by 10, so a fuel above the number is enough.
pub digits_of : ℕ → ℕ → Bytes
digits_of zero n = []
digits_of (suc fuel) n =
    let rest = digits_of fuel (n / 10) in
    if ltb n 10 then (b'0' + n) ∷ [] else rest ++ (b'0' + n % 10) ∷ []

pub replica_slot_id : ℤ → Bytes
unfolding digits_of
replica_slot_id (pos n) = digits_of (suc n) n
replica_slot_id (negsuc n) = b'-' ∷ digits_of (suc (suc n)) (suc n)

pub is_digit : ℕ → Bool
is_digit c = leb b'0' c && leb c b'9'

pub scan_digits : ℕ → Bytes → ℕ
unfolding is_digit
scan_digits acc [] = acc
scan_digits acc (c ∷ cs) =
    let rest = scan_digits (acc * 10 + (c - b'0')) cs in if is_digit c then rest else acc

-- At least one digit, and a value that an int64 holds.
pub scan_number : Bytes → Option ℕ
unfolding scan_digits is_digit
scan_number [] = none
scan_number (c ∷ cs) =
    let n = scan_digits 0 (c ∷ cs) in if is_digit c && ltb n (2 ^ 63) then some n else none

pub scan_signed : Bytes → Option ℤ
unfolding scan_number
scan_signed [] = none
scan_signed (c ∷ cs) =
    if nat_beq c b'-'
    then (elim (scan_number cs) [
      | none ↦ none
      | some zero ↦ some (pos zero)
      | some (suc n) ↦ some (negsuc n)
    ])
    else if nat_beq c b'+'
    then (elim (scan_number cs) [ none ↦ none | some n ↦ some (pos n) ])
    else elim (scan_number (c ∷ cs)) [ none ↦ none | some n ↦ some (pos n) ]

-- The spaces of ASCII but the line feed, which `Sscanf` refuses.
pub is_space : ℕ → Bool
is_space c = nat_beq c 32 || nat_beq c 9 || nat_beq c 11 || nat_beq c 12 || nat_beq c 13

pub skip_space : Bytes → Bytes
unfolding is_space
skip_space [] = []
skip_space (c ∷ cs) = let rest = skip_space cs in if is_space c then rest else c ∷ cs

pub parse_replica_slot : Bytes → ℤ
unfolding scan_signed skip_space
parse_replica_slot id = elim (scan_signed (skip_space id)) [ none ↦ negsuc 0 | some n ↦ n ]

-- The loop of `nextReplicaSlot`.
pub highest_slot : ℤ → List ReplicaState → ℤ
unfolding parse_replica_slot
highest_slot highest [] = highest
highest_slot highest (r ∷ rs) =
    let slot = parse_replica_slot (bytes r.replica_id) in
    highest_slot (if ltb_ℤ highest slot then slot else highest) rs

pub next_replica_slot : Capsule → Bytes
unfolding highest_slot replica_slot_id
next_replica_slot c = replica_slot_id (wrap_int32 (highest_slot (negsuc 0) c.replicas +ℤ pos 1))

unfoldable pub initial_replica_count : ReplicaConfig → ℤ
initial_replica_count r =
    if ltb_ℤ (pos 0) r.exact
    then r.exact
    else if ltb_ℤ (pos 0) r.min_count
    then r.min_count
    else pos 1
