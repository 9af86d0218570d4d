-- ===== src/Node/Slots/Fresh.antt =====
-- The slot of a scale-up in node/capsule_handler.go is a new one.
use falak.Prelude.{
  ℕ, zero, suc, ◌+◌, ◌-◌, ◌*◌, ◌/◌, ◌%◌, ◌^◌, ◌<◌, ◌≡◌, ◌≢◌, refl, ap, subst, ◌∙◌, true, List, [],
  ◌∷◌, ◌++◌, ltb, All, if◌then◌else◌, arith, Bool-cases, inl, inr,
}
use falak.Prelude.Int.{ℤ, pos, negsuc, ltb_ℤ, ◌+ℤ◌, ◌≤ℤ◌}
use falak.Momentum.{wrap_int32}
use falak.Shared.Paths.{Bytes, bytes}
use falak.Capsule.Store.{Capsule, ReplicaState}
use falak.Node.Slots.{
  digits_of, replica_slot_id, is_digit, scan_digits, scan_number, scan_signed, is_space, skip_space,
  parse_replica_slot, highest_slot, next_replica_slot,
}

abbrev Digits : Bytes → Type 0
Digits [] = Unit
Digits (c ∷ cs) = (is_digit c ≡ true) × Digits cs

Digits-append : (xs : Bytes) (c : ℕ) → Digits xs → is_digit c ≡ true → Digits (xs ++ c ∷ [])
Digits-append [] c d h = (h, tt)
Digits-append (x ∷ xs) c d h = (d.0, Digits-append xs c d.1 h)

digit : (n : ℕ) → n < 10 → is_digit (b'0' + n) ≡ true
unfolding is_digit
digit n h = ground arith

scan_digits-append :
    (acc : ℕ) (xs : Bytes) (n : ℕ)
    → Digits xs
    → n < 10
    → scan_digits acc (xs ++ (b'0' + n) ∷ []) ≡ scan_digits acc xs * 10 + n
unfolding scan_digits
scan_digits-append acc [] n d h = ground (arith, digit n h)
scan_digits-append acc (x ∷ xs) n d h =
    rw d.0 (scan_digits-append (acc * 10 + (x - b'0')) xs n d.1 h)

digits_of-Digits : (fuel n : ℕ) → n < fuel → Digits (digits_of fuel n)
unfolding digits_of
digits_of-Digits zero n h = tt
digits_of-Digits (suc fuel) n h = elim (Bool-cases (ltb n 10)) [
  | inl t ↦ rw t (digit n (ground arith), tt)
  | inr t ↦ rw t (
      Digits-append (digits_of fuel (n / 10)) (b'0' + n % 10)
        (digits_of-Digits fuel (n / 10) (ground arith)) (digit (n % 10) (omega arith)))
]

scan-digits_of : (fuel n : ℕ) → n < fuel → scan_digits 0 (digits_of fuel n) ≡ n
unfolding digits_of scan_digits
scan-digits_of zero n h = absurd (omega arith)
scan-digits_of (suc fuel) n h = elim (Bool-cases (ltb n 10)) [
  | inl t ↦ rw t (ground (arith, digit n (ground arith)))
  | inr t ↦
      let small : n / 10 < fuel = ground arith in
      rw t (
        scan_digits-append 0 (digits_of fuel (n / 10)) (n % 10)
          (digits_of-Digits fuel (n / 10) small) (omega arith)
        ∙ ground (arith, scan-digits_of fuel (n / 10) small))
]

-- Digits that scan to a number are that number.
parse-Digits :
    (cs : Bytes) (n : ℕ)
    → cs ≢ []
    → Digits cs
    → scan_digits 0 cs ≡ n
    → n < 2 ^ 63
    → parse_replica_slot cs ≡ pos n
unfolding parse_replica_slot skip_space is_space scan_signed scan_number is_digit
parse-Digits [] n e d s h = absurd (e refl)
parse-Digits (c ∷ cs) n e d s h = ground (arith, d.0)

digits_of-nonempty : (fuel n : ℕ) → 0 < fuel → digits_of fuel n ≢ []
unfolding digits_of
digits_of-nonempty zero n h e = absurd (omega arith)
digits_of-nonempty (suc fuel) n h e = elim (Bool-cases (ltb n 10)) [
  | inl t ↦ let no : (b'0' + n) ∷ [] ≡ [] = rw t at e in absurd (cc)
  | inr t ↦
      let no : digits_of fuel (n / 10) ++ (b'0' + n % 10) ∷ [] ≡ [] = rw t at e in
      append-nonempty (digits_of fuel (n / 10)) (b'0' + n % 10) no
]
  where
    append-nonempty : (xs : Bytes) (c : ℕ) → (xs ++ c ∷ []) ≢ []
    append-nonempty [] c p = absurd (cc)
    append-nonempty (x ∷ xs) c p = absurd (cc)

-- Printing a slot and parsing it gives the slot back.
parse-replica_slot_id : (n : ℕ) → n < 2 ^ 63 → parse_replica_slot (replica_slot_id (pos n)) ≡ pos n
unfolding replica_slot_id
parse-replica_slot_id n h =
    parse-Digits (digits_of (suc n) n) n (digits_of-nonempty (suc n) n (omega arith))
      (digits_of-Digits (suc n) n (omega arith)) (scan-digits_of (suc n) n (omega arith)) h

highest_slot-le : (h : ℤ) (rs : List ReplicaState) → h ≤ℤ highest_slot h rs
unfolding highest_slot
highest_slot-le h [] = omega arith
highest_slot-le h (r ∷ rs) = elim (Bool-cases (ltb_ℤ h (parse_replica_slot (bytes r.replica_id)))) [
  | inl t ↦
      rw t (let rest = highest_slot-le (parse_replica_slot (bytes r.replica_id)) rs in ground arith)
  | inr t ↦ rw t (highest_slot-le h rs)
]

-- Every replica's slot is at most the highest.
abbrev AtMost : ℤ → ReplicaState → Type 0
AtMost h r = parse_replica_slot (bytes r.replica_id) ≤ℤ h

highest_slot-AtMost : (h : ℤ) (rs : List ReplicaState) → All (AtMost (highest_slot h rs)) rs
unfolding highest_slot
highest_slot-AtMost h [] = tt
highest_slot-AtMost h (r ∷ rs) =
    let slot = parse_replica_slot (bytes r.replica_id) in
    let higher = if ltb_ℤ h slot then slot else h in
    let first : slot ≤ℤ higher = ground arith in
    let rest = highest_slot-le higher rs in
    (omega (arith, first, rest), highest_slot-AtMost higher rs)

next_slot :
    (h : ℤ)
    → negsuc 0 ≤ℤ h
    → h ≤ℤ pos (2 ^ 31 - 2)
    → (n : ℕ) × (wrap_int32 (h +ℤ pos 1) ≡ pos n) × (h ≤ℤ pos n) × ((pos n ≤ℤ h) → ⊥) × (n < 2 ^ 63)
unfolding wrap_int32 ◌+ℤ◌
next_slot (pos n) a b =
    (suc n, ground arith, ground arith, (λ k. absurd (omega (arith, k))), omega arith)
next_slot (negsuc zero) a b = (0, refl, ground arith, (λ k. absurd (omega (arith, k))), omega arith)
next_slot (negsuc (suc n)) a b = absurd (omega arith)

distinct :
    (h : ℤ) (n : ℕ) (rs : List ReplicaState)
    → n < 2 ^ 63
    → ((pos n ≤ℤ h) → ⊥)
    → All (AtMost h) rs
    → All (λ r. bytes r.replica_id ≢ replica_slot_id (pos n)) rs
distinct h n [] small above v = tt
distinct h n (r ∷ rs) small above v = (
  λ e. above (subst (λ x. x ≤ℤ h) (ap parse_replica_slot e ∙ parse-replica_slot_id n small) v.0),
  distinct h n rs small above v.1,
)

-- The slot that a scale-up asks for is none of the capsule's replicas, as long as the highest of
-- their slots leaves room in 32 bits; IDs that are not numbers do not count.
pub next_replica_slot_fresh :
    (c : Capsule)
    → highest_slot (negsuc 0) c.replicas ≤ℤ pos (2 ^ 31 - 2)
    → All (λ r. bytes r.replica_id ≢ next_replica_slot c) c.replicas
unfolding next_replica_slot
next_replica_slot_fresh c room =
    let (n, e, up, above, small) =
      next_slot (highest_slot (negsuc 0) c.replicas) (highest_slot-le (negsuc 0) c.replicas) room in
    rw e (
      distinct (highest_slot (negsuc 0) c.replicas) n c.replicas small above
        (highest_slot-AtMost (negsuc 0) c.replicas))
