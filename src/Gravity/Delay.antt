-- ===== src/Gravity/Delay.antt =====
-- election/delay/strategy.go. Configured durations are not negative, and sums and products of durations
-- do not overflow. `local` is what the state provider answers, `drawn` the 64 bits of `crypto/rand`, or
-- `none` when they cannot be read; `duration_of` is `time.Duration` of a float and `bits_of` the bit
-- pattern of a score.
pub mod Window
use falak.Prelude.{
  ℕ, zero, suc, ◌+◌, ◌-◌, ◌*◌, ◌%◌, ◌^◌, Bool, true, false, ◌&&◌, not, List, [], ◌∷◌, Option, none,
  some, String, leb, ltb, nat_beq, is_nil, if◌then◌else◌,
}
use falak.Prelude.Int.{ℤ, pos, negsuc}
use falak.Shared.Paths.{Bytes, bytes}
use falak.Capsule.Store.{Capsule}
use falak.Election.Types.{Request, Decision}
use falak.Gravity.Floats.{Floats}
use falak.Gravity.Eligibility.{NodeState, Reason, Ineligibility}
use falak.Gravity.Calculator.{Result, Calculator, calculate}

-- The standard library's `strconv.Atoi`, which refuses what an int64 does not hold.
pub digits : ℕ → Bytes → Option ℕ
digits acc [] = some acc
digits acc (c ∷ cs) =
    let rest = digits (acc * 10 + (c - b'0')) cs in if leb b'0' c && leb c b'9' then rest else none

pub unsigned : Bytes → Option ℕ
unfolding digits
unsigned [] = none
unsigned (c ∷ cs) = digits 0 (c ∷ cs)

pub signed : Bool → Option ℕ → Option ℤ
signed negative none = none
signed true (some zero) = some (pos zero)
signed true (some (suc n)) = if ltb n (2 ^ 63) then some (negsuc n) else none
signed false (some n) = if ltb n (2 ^ 63) then some (pos n) else none

pub atoi : Bytes → Option ℤ
unfolding unsigned signed
atoi [] = none
atoi (c ∷ cs) =
    if nat_beq c b'-'
    then signed true (unsigned cs)
    else if nat_beq c b'+'
    then signed false (unsigned cs)
    else signed false (unsigned (c ∷ cs))

pub record Strategy : Type 0 where
  pub max_wait : ℕ
  pub max_jitter : ℕ
  pub replica_stagger : ℕ

-- `New` without options, in nanoseconds.
pub new_strategy : Strategy
new_strategy = record { max_wait = 500000000; max_jitter = 200000; replica_stagger = 150000000 }

pub slot_of : Option ℤ → ℕ
slot_of (some (pos n)) = n
slot_of _ = 0

pub replica_slot_stagger : String → ℕ → ℕ
unfolding atoi slot_of
replica_slot_stagger replica_id stagger = slot_of (atoi (bytes replica_id)) * stagger

pub jitter : ℕ → Option ℕ → ℕ
jitter limit none = 0
jitter limit (some drawn) = if nat_beq limit 0 then 0 else drawn % limit

module _ {F : Type 0} (f : Floats F) (duration_of : F → ℕ) (bits_of : F → ℕ) where
  pub wait_for_score : F → ℕ → ℕ
  wait_for_score score max_wait =
      let low = if f.less score f.zero then f.zero else score in
      let kept = if f.less f.hundred low then f.hundred else low in
      duration_of (f.mul (f.div (f.minus f.hundred kept) f.hundred) (f.of_int (pos max_wait)))

  -- `why_not` gives the text of an ineligible decision.
  pub refused : String → Decision
  refused why = record { eligible = false; score = 0; publish_at = 0; why = why }

  pub decide :
      (Reason → String → String)
      → (Ineligibility → String)
      → Strategy
      → ℕ
      → Option ℕ
      → Option (NodeState F)
      → Request
      → Capsule
      → Calculator F
      → Decision
  unfolding refused wait_for_score jitter replica_slot_stagger
  decide detail_of why_not s now drawn none req c calc =
      refused "delay strategy: local node lookup failed"
  decide detail_of why_not s now drawn (some n) req c calc =
      let result = calculate f detail_of calc c n in
      if result.eligible
      then record {
        eligible = true;
        score = bits_of result.score;
        publish_at =
            now
            + (wait_for_score result.score s.max_wait
                + replica_slot_stagger req.replica_id s.replica_stagger
                + jitter s.max_jitter drawn);
        why = "delay strategy: eligible";
      }
      else refused (why_not result.inelig)
