-- ===== src/Shared/Retry/Tests.antt =====
-- The theorems about the retries at concrete functions.
use falak.Prelude.{
  ℕ, ◌<◌, ◌≡◌, refl, Bool, false, Option, none, some, nat_beq, arith, if◌then◌else◌,
}
use falak.Shared.Retry.{default_retry_config, Attempt, success, failure, retry, retry_loop}
use falak.Shared.Retry.Laws.{FailsUntil, retry-success}

-- The third call is the first without an error; the context lives on.
abbrev third_time : ℕ → Option ℕ
third_time i = if nat_beq i 2 then none else some i

abbrev alive : ℕ → Bool
alive i = false

abbrev answers : ℕ → Attempt ℕ ℕ
answers i = if nat_beq i 2 then success 7 else failure i

two_left : 2 < default_retry_config.max_retries
unfolding default_retry_config
two_left = omega arith

third_time-FailsUntil : FailsUntil alive third_time 0 2
third_time-FailsUntil i a b = ((i, ground arith), refl)

retry-success_example :
    retry alive default_retry_config third_time ≡ record { calls = 3; outcome = none }
retry-success_example =
    retry-success alive third_time default_retry_config 2 two_left third_time-FailsUntil refl

third_time-nil : (retry alive default_retry_config third_time).outcome ≡ none
unfolding retry retry_loop default_retry_config
third_time-nil = refl
