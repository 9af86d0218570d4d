-- ===== src/Momentum/Bounds.antt =====
-- The bounds of a capsule's momentum in capsule/momentum/momentum.go.
use falak.Prelude.{
  ℕ, ◌^◌, ◌%◌, ◌-◌, ◌≡◌, refl, ◌∙◌, ap, sym, subst, Bool, true, false, not, List, [], ◌∷◌,
  if◌then◌else◌, arith,
}
use falak.Prelude.Int.{ℤ, pos, negsuc, ◌≤ℤ◌, ◌+ℤ◌, ◌-ℤ◌, ltb_ℤ, +ℤ_parts}
use falak.Momentum.{Tracker, clamp, wrap_int32, with_current, boost, reduce, set, reset}

-- Bounds in order, with the current and the base momentum between them.
pub record InBounds (t : Tracker) : Type 0 where
  pub current_low : t.min_momentum ≤ℤ t.state.current
  pub current_high : t.state.current ≤ℤ t.max_momentum
  pub base_low : t.min_momentum ≤ℤ t.state.base
  pub base_high : t.state.base ≤ℤ t.max_momentum

clamp-between :
    (t : Tracker) (value : ℤ)
    → t.min_momentum ≤ℤ t.max_momentum
    → (t.min_momentum ≤ℤ clamp t value) × (clamp t value ≤ℤ t.max_momentum)
unfolding clamp
clamp-between t value h = ground arith

pub data Call : Type 0 where
  boosts reduces resets : Call
  sets : ℤ → Call

pub step : Tracker → ℕ → Call → Tracker
step t now boosts = (boost t now).0
step t now reduces = (reduce t now).0
step t now resets = reset t now
step t now (sets value) = set t now value

pub run : Tracker → List (ℕ × Call) → Tracker
unfolding step
run t [] = t
run t ((now, call) ∷ calls) = run (step t now call) calls

ordered : (t : Tracker) → InBounds t → t.min_momentum ≤ℤ t.max_momentum
ordered t v = omega (arith, v.current_low, v.current_high)

with_current-InBounds :
    (t : Tracker) (value : ℤ) (now : ℕ) → InBounds t → InBounds (with_current t (clamp t value) now)
with_current-InBounds t value now v =
    let (low, high) = clamp-between t value (ordered t v) in
    record {
      current_low = low;
      current_high = high;
      base_low = v.base_low;
      base_high = v.base_high;
    }

branch-InBounds :
    (b : Bool) (x y : Tracker × Bool)
    → InBounds x.0
    → InBounds y.0
    → InBounds (if b then x else y).0
branch-InBounds true x y v w = v
branch-InBounds false x y v w = w

step-InBounds : (t : Tracker) (now : ℕ) (call : Call) → InBounds t → InBounds (step t now call)
unfolding step boost reduce reset set
step-InBounds t now boosts v =
    branch-InBounds (not t.config.boost_on_traffic) (t, false) _ v
      (with_current-InBounds t (wrap_int32 (t.state.current +ℤ t.boost_amount)) now v)
step-InBounds t now reduces v =
    branch-InBounds (not t.config.reduce_on_idle) (t, false) _ v
      (with_current-InBounds t (wrap_int32 (t.state.current -ℤ t.reduce_amount)) now v)
step-InBounds t now resets v = record {
  current_low = v.base_low;
  current_high = v.base_high;
  base_low = v.base_low;
  base_high = v.base_high;
}
step-InBounds t now (sets value) v = with_current-InBounds t value now v

-- Whatever boosts, reductions, resets and settings are run on a tracker whose base and current
-- momentum lie between its bounds, they stay there, though the sums wrap at 32 bits.
pub run-InBounds : (t : Tracker) (calls : List (ℕ × Call)) → InBounds t → InBounds (run t calls)
unfolding run
run-InBounds t [] v = v
run-InBounds t ((now, call) ∷ calls) v =
    run-InBounds (step t now call) calls (step-InBounds t now call v)

wrap-small : (z : ℤ) → pos 0 ≤ℤ z → z ≤ℤ pos (2 ^ 31 - 1) → wrap_int32 z ≡ z
unfolding wrap_int32
wrap-small (pos n) low high = let small : n % 2 ^ 32 ≡ n = omega arith in rw small (ground arith)
wrap-small (negsuc n) low high = ground arith

boosted :
    (t : Tracker) (now : ℕ)
    → t.config.boost_on_traffic ≡ true
    → (boost t now).0.state.current ≡ clamp t (wrap_int32 (t.state.current +ℤ t.boost_amount))
unfolding boost
boosted t now on = branched (not t.config.boost_on_traffic) (t, false) _ (ap not on)
  where
    branched :
        (b : Bool) (x y : Tracker × Bool)
        → b ≡ false
        → (if b then x else y).0.state.current ≡ y.0.state.current
    branched true x y h = let no : ⊥ = cc in absurd no
    branched false x y h = refl

-- A value that is not below the lower bound.
clamp-high :
    (t : Tracker) (value : ℤ)
    → t.min_momentum ≤ℤ value
    → clamp t value ≡ (if ltb_ℤ t.max_momentum value then t.max_momentum else value)
unfolding clamp
clamp-high t value h = ground arith

high-le :
    (t : Tracker) (value : ℤ)
    → t.state.current ≤ℤ t.max_momentum
    → t.state.current ≤ℤ value
    → t.state.current ≤ℤ (if ltb_ℤ t.max_momentum value then t.max_momentum else value)
high-le t value h k = ground arith

-- A boost that is on, by an amount that is not negative and does not take the momentum of a tracker
-- within bounds past the 32-bit range, adds the amount up to the upper bound: the momentum never
-- falls.
pub boost-current :
    (t : Tracker) (now : ℕ)
    → InBounds t
    → t.config.boost_on_traffic ≡ true
    → pos 0 ≤ℤ t.boost_amount
    → pos 0 ≤ℤ t.state.current
    → (t.state.current +ℤ t.boost_amount) ≤ℤ pos (2 ^ 31 - 1)
    → ((boost t now).0.state.current ≡ (
        if ltb_ℤ t.max_momentum (t.state.current +ℤ t.boost_amount)
        then t.max_momentum
        else t.state.current +ℤ t.boost_amount))
      × (t.state.current ≤ℤ (boost t now).0.state.current)
boost-current t now v on amount low high =
    let sum = t.state.current +ℤ t.boost_amount in
    let parts = +ℤ_parts t.state.current t.boost_amount in
    let grows : t.state.current ≤ℤ sum = omega (arith, parts, amount) in
    let positive : pos 0 ≤ℤ sum = omega (arith, grows, low) in
    let whole : t.min_momentum ≤ℤ sum = omega (arith, grows, v.current_low) in
    let is : (boost t now).0.state.current
        ≡ (if ltb_ℤ t.max_momentum sum then t.max_momentum else sum) =
      boosted t now on ∙ ap (clamp t) (wrap-small sum positive high) ∙ clamp-high t sum whole in
    (is, subst (λ z. t.state.current ≤ℤ z) (sym is) (high-le t sum v.current_high grows))
