-- ===== src/Shared/Retry.antt =====
-- shared/retry.go. The function that is retried is given by its outcomes, `fn i` for the i-th call
-- (counted from 0), and `done i` says whether the context ends during the wait after that call. A
-- negative `MaxRetries` makes no call, like 0.
mod Laws
mod Tests
use falak.Prelude.{ℕ, zero, suc, Bool, Option, none, some, nat_beq, if◌then◌else◌}

pub record RetryConfig : Type 0 where
  pub max_retries : ℕ
  pub delay : ℕ  -- milliseconds

pub default_retry_config : RetryConfig
default_retry_config = record { max_retries = 3; delay = 100 }

-- The error that comes back: the function's last one, or that of the context.
pub data RetryError {ℓ} (E : Type ℓ) : Type ℓ where
  last : E → RetryError E
  context_done : RetryError E

-- What came back (`none` for a nil error), and how many calls were made.
pub record Retried {ℓ} (E : Type ℓ) : Type ℓ where
  pub calls : ℕ
  pub outcome : Option (RetryError E)

abbrev pub wrap {ℓ} : {E : Type ℓ} → Option E → Option (RetryError E)
wrap none = none
wrap (some e) = some (last e)

module _ {ℓ} {E : Type ℓ} (done : ℕ → Bool) where
  -- The loop of `Retry`, `left` rounds before its end.
  pub retry_loop : (ℕ → Option E) → ℕ → ℕ → Option E → Retried E
  retry_loop fn zero attempt last_err = record { calls = attempt; outcome = wrap last_err }
  retry_loop fn (suc left) attempt last_err = elim (fn attempt) [
    | none ↦ record { calls = suc attempt; outcome = none }
    | some e ↦
        let rest = retry_loop fn left (suc attempt) (some e) in
        if nat_beq left 0
        then rest
        else if done attempt
        then record { calls = suc attempt; outcome = some context_done }
        else rest
  ]

  pub retry : RetryConfig → (ℕ → Option E) → Retried E
  unfolding retry_loop
  retry cfg fn = retry_loop fn cfg.max_retries 0 none

-- What a call with a result gives.
pub data Attempt {ℓ κ} (T : Type ℓ) (E : Type κ) : Type (ℓ ⊔ κ) where
  success : T → Attempt T E
  failure : E → Attempt T E

-- The result (or the zero value), and the error.
pub record RetriedWith {ℓ κ} (T : Type ℓ) (E : Type κ) : Type (ℓ ⊔ κ) where
  pub result : T
  pub retried : Retried E

module _ {ℓ κ} {T : Type ℓ} {E : Type κ} (zero_value : T) (done : ℕ → Bool) where
  pub retry_with_result_loop : (ℕ → Attempt T E) → ℕ → ℕ → Option E → RetriedWith T E
  retry_with_result_loop fn zero attempt last_err = record {
    result = zero_value;
    retried = record { calls = attempt; outcome = wrap last_err };
  }
  retry_with_result_loop fn (suc left) attempt last_err = elim (fn attempt) [
    | success t ↦ record { result = t; retried = record { calls = suc attempt; outcome = none } }
    | failure e ↦
        let rest = retry_with_result_loop fn left (suc attempt) (some e) in
        if nat_beq left 0
        then rest
        else if done attempt
        then record {
          result = zero_value;
          retried = record { calls = suc attempt; outcome = some context_done };
        }
        else rest
  ]

  pub retry_with_result : RetryConfig → (ℕ → Attempt T E) → RetriedWith T E
  unfolding retry_with_result_loop
  retry_with_result cfg fn = retry_with_result_loop fn cfg.max_retries 0 none
