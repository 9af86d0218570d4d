-- ===== src/Guard/Limiter/Recent.antt =====
-- The times in the window of node/internal/ratelimit/limiter.go, counted.
use falak.Prelude.{
  ℕ, suc, ◌≤◌, ◌≡◌, refl, ap, List, [], ◌∷◌, ◌++◌, keep, length, string_eq, arith, length-keep-le,
}
use falak.Guard.Limiter.{after_cutoff, in_window}

-- How many of the times are after `now - window`.
pub recent : ℕ → ℕ → List ℕ → ℕ
recent window now ts = length (in_window window now ts)

pub recent_lem : (w now : ℕ) (ts : List ℕ) → recent w now ts ≡ length (in_window w now ts)
unfolding recent
recent_lem w now ts = refl

pub keep-after :
    (w now later : ℕ) (ts : List ℕ)
    → now ≤ later
    → in_window w later (in_window w now ts) ≡ in_window w later ts
unfolding in_window keep
keep-after w now later [] h = refl
keep-after w now later (t ∷ ts) h = ground (arith, keep-after w now later ts h)

pub recent-append :
    (w later t : ℕ) (ts : List ℕ) → recent w later (ts ++ t ∷ []) ≡ recent w later (t ∷ ts)
unfolding recent in_window keep
recent-append w later t [] = refl
recent-append w later t (x ∷ ts) = ground (arith, recent-append w later t ts)

pub recent-cons_cong :
    (w later t : ℕ) (ss ts : List ℕ)
    → recent w later ss ≡ recent w later ts
    → recent w later (t ∷ ss) ≡ recent w later (t ∷ ts)
unfolding recent in_window keep
recent-cons_cong w later t ss ts h = ground arith

pub recent-cons_le :
    (w later t : ℕ) (ts : List ℕ) → recent w later (t ∷ ts) ≤ suc (recent w later ts)
unfolding recent in_window keep
recent-cons_le w later t ts = ground arith

pub recent-in_window :
    (w now later : ℕ) (ts : List ℕ)
    → now ≤ later
    → recent w later (in_window w now ts) ≡ recent w later ts
unfolding recent
recent-in_window w now later ts h = ap length (keep-after w now later ts h)

pub recent_mono :
    (w now later : ℕ) (ts : List ℕ) → now ≤ later → recent w later ts ≤ recent w now ts
unfolding recent in_window
recent_mono w now later ts h = omega (
  arith,
  ap length (keep-after w now later ts h),
  length-keep-le (after_cutoff w later) (in_window w now ts),
)

pub recent_none : (w now : ℕ) → recent w now [] ≤ 0
unfolding recent in_window keep
recent_none w now = omega arith
