-- ===== src/Shared/Retry/Laws.antt =====
-- What `Retry` and `RetryWithResult` of shared/retry.go return.
use falak.Prelude.{
  ℕ, zero, suc, ◌+◌, ◌≤◌, ◌<◌, ◌≡◌, refl, Option-cases, ap, sym, ◌⊎◌, inl, inr, ◌∙◌, Bool, false,
  Option, none, some, arith,
}
use native.Mathlib.Decide.{dec_lt}
use falak.Shared.Retry.{
  RetryConfig, context_done, Retried, Attempt, success, failure, retry_loop, retry,
  retry_with_result_loop, retry_with_result,
}

module _ {ℓ} {E : Type ℓ} (done : ℕ → Bool) (fn : ℕ → Option E) where
  -- One round of the loop, by what the function gives.
  round-none :
      (left attempt : ℕ) (e : Option E)
      → fn attempt ≡ none
      → retry_loop done fn (suc left) attempt e ≡ record { calls = suc attempt; outcome = none }
  unfolding retry_loop
  round-none left attempt e h = ground arith

  round-some :
      (left attempt : ℕ) (e : Option E) (x : E)
      → fn attempt ≡ some x
      → (left ≡ 0) ⊎ (done attempt ≡ false)
      → retry_loop done fn (suc left) attempt e ≡ retry_loop done fn left (suc attempt) (some x)
  unfolding retry_loop
  round-some left attempt e x h d = ground arith

  rounds :
      (left attempt : ℕ) (e : Option E) (x : E)
      → fn attempt ≡ some x
      → (retry_loop done fn (suc left) attempt e ≡ retry_loop done fn left (suc attempt) (some x))
        ⊎ ((retry_loop done fn (suc left) attempt e).outcome ≡ some context_done)
  unfolding retry_loop
  rounds left attempt e x h = ground arith

  -- The calls from `attempt` up to `k` fail, and no wait after them is cut short.
  abbrev pub FailsUntil : ℕ → ℕ → Type ℓ
  FailsUntil attempt k =
      (i : ℕ) → attempt ≤ i → i < k → ((x : E) × (fn i ≡ some x)) × (done i ≡ false)

  retry_loop-success :
      (left attempt k : ℕ) (e : Option E)
      → attempt ≤ k
      → k < attempt + left
      → FailsUntil attempt k
      → fn k ≡ none
      → retry_loop done fn left attempt e ≡ record { calls = suc k; outcome = none }
  retry_loop-success zero attempt k e a b before here = absurd (omega arith)
  retry_loop-success (suc left) attempt k e a b before here = elim (dec_lt attempt k) [
    | yes p ↦
        let ((x, h), d) = before attempt (omega arith) p in
        round-some left attempt e x h (inr d)
        ∙ retry_loop-success left (suc attempt) k (some x) p (omega arith)
            (λ i q r. before i (omega arith) r) here
    | no n ↦
        let same : attempt ≡ k = omega arith in
        rw (← same) (round-none left attempt e (rw same here))
  ]

  -- The loop returned at a call that gave no error, or made no call.
  abbrev FoundAt : ℕ → ℕ → Option E → Retried E → Type ℓ
  FoundAt left attempt e r =
      ((left ≡ 0) × (e ≡ none))
      ⊎ ((k : ℕ) × (fn k ≡ none) × (attempt ≤ k) × (k < attempt + left) × (r.calls ≡ suc k))

  retry_loop-nil :
      (left attempt : ℕ) (e : Option E)
      → (retry_loop done fn left attempt e).outcome ≡ none
      → FoundAt left attempt e (retry_loop done fn left attempt e)
  retry_loop-nil zero attempt none h = inl (refl, refl)
  retry_loop-nil zero attempt (some x) h = absurd (unfold retry_loop in cc)
  retry_loop-nil (suc left) attempt e h = elim (Option-cases (fn attempt)) [
    | inl e0 ↦
        inr
          (attempt, e0, omega arith, omega arith, ap (λ r. r.calls) (round-none left attempt e e0))
    | inr (x, ex) ↦ elim (rounds left attempt e x ex) [
      | inl same ↦ rw same (
          later left attempt e x
            (retry_loop-nil left (suc attempt) (some x) (ap (λ r. r.outcome) (sym same) ∙ h)))
      | inr stop ↦ let no_stop : ⊥ = cc in absurd no_stop
    ]
  ]
    where
      later :
          (left attempt : ℕ) (e : Option E) (x : E)
          → FoundAt left (suc attempt) (some x) (retry_loop done fn left (suc attempt) (some x))
          → FoundAt (suc left) attempt e (retry_loop done fn left (suc attempt) (some x))
      later left attempt e x (inl (_, q)) = let no_error : ⊥ = cc in absurd no_error
      later left attempt e x (inr (k, f, a, b, c)) = inr (k, f, omega arith, omega arith, c)

  -- When the first call without an error is call k, within `MaxRetries` calls and with the context
  -- alive through the k waits before it, `Retry` makes k + 1 calls and returns nil.
  pub retry-success :
      (cfg : RetryConfig) (k : ℕ)
      → k < cfg.max_retries
      → FailsUntil 0 k
      → fn k ≡ none
      → retry done cfg fn ≡ record { calls = suc k; outcome = none }
  unfolding retry
  retry-success cfg k b before here =
      retry_loop-success cfg.max_retries 0 k none (omega arith) (omega arith) before here

  -- `Retry` returns nil only when one of its calls, the last that it made, gave no error, or when
  -- `MaxRetries` is 0 and no call was to be made.
  pub retry-nil :
      (cfg : RetryConfig)
      → (retry done cfg fn).outcome ≡ none
      → (cfg.max_retries ≡ 0)
        ⊎ ((k : ℕ) × (fn k ≡ none) × (k < cfg.max_retries) × ((retry done cfg fn).calls ≡ suc k))
  unfolding retry
  retry-nil cfg h = elim (retry_loop-nil cfg.max_retries 0 none h) [
    | inl (z, _) ↦ inl z
    | inr (k, f, _, b, c) ↦ inr (k, f, omega arith, c)
  ]

Attempt-cases {ℓ κ} :
    {T : Type ℓ} {E : Type κ} (a : Attempt T E)
    → ((t : T) × (a ≡ success t)) ⊎ ((x : E) × (a ≡ failure x))
Attempt-cases (success t) = inl (t, refl)
Attempt-cases (failure x) = inr (x, refl)

-- The error of a call with a result.
abbrev pub error_of {ℓ κ} : {T : Type ℓ} {E : Type κ} → Attempt T E → Option E
error_of (success t) = none
error_of (failure e) = some e

module _ {ℓ κ} {T : Type ℓ} {E : Type κ} (z : T) (done : ℕ → Bool) (fn : ℕ → Attempt T E) where
  loops_agree :
      (left attempt : ℕ) (e : Option E)
      → (retry_with_result_loop z done fn left attempt e).retried
        ≡ retry_loop done (λ i. error_of (fn i)) left attempt e
  unfolding retry_loop retry_with_result_loop
  loops_agree zero attempt e = refl
  loops_agree (suc left) attempt e = elim (Attempt-cases (fn attempt)) [
    | inl (t, h) ↦ ground arith
    | inr (x, h) ↦ ground (arith, loops_agree left (suc attempt) (some x))
  ]

  -- The two functions make the same calls and return the same error, whatever the context does.
  pub retry_with_result-retry :
      (cfg : RetryConfig)
      → (retry_with_result z done cfg fn).retried ≡ retry done cfg (λ i. error_of (fn i))
  unfolding retry retry_with_result
  retry_with_result-retry cfg = loops_agree cfg.max_retries 0 none
