-- ===== src/Gravity/Floats.antt =====
-- The arithmetic of float64 that election/gravity and election/delay use, as an interface.
use falak.Prelude.{◌≡◌, Bool, false, if◌then◌else◌}
use falak.Prelude.Int.{ℤ}

pub record Floats (F : Type 0) : Type 0 where
  pub of_int : ℤ → F
  pub zero : F
  pub one : F
  pub fifty : F
  pub hundred : F
  pub plus : F → F → F
  pub minus : F → F → F
  pub mul : F → F → F
  pub div : F → F → F
  pub less : F → F → Bool
  pub at_most : F → F → Bool
  pub is_zero : F → Bool

-- Not a NaN, and not out of the range.
pub record Lies {F : Type 0} (f : Floats F) (low high x : F) : Type 0 where
  pub above : f.less x low ≡ false
  pub below : f.less high x ≡ false

-- What IEEE 754 says of the comparisons of these constants and of a product with 100.
pub record IsLawful {F : Type 0} (f : Floats F) : Type 0 where
  pub less_irrefl : (x : F) → f.less x x ≡ false
  pub zero-less-one : f.less f.one f.zero ≡ false
  pub mul-hundred : (x : F) → Lies f f.zero f.one x → Lies f f.zero f.hundred (f.mul x f.hundred)
  pub fifty_in : Lies f f.zero f.hundred f.fifty
  pub zero_in : Lies f f.zero f.hundred f.zero

module _ {F : Type 0} (f : Floats F) where
  -- `v < 0`, then `v > 1`.
  unfoldable pub clamp01 : F → F
  clamp01 v = if f.less v f.zero then f.zero else if f.less f.one v then f.one else v
