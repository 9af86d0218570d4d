-- ===== src/Prelude/Equality.antt =====
-- Go's `==` on the types that serve as map keys: an interface with its instances.
use Prim.Native.Nat.{ℕ}
use Prim.Native.String.{String}
use mathlib.Core.Path.{◌≡◌, refl}
use mathlib.Core.Logic.{◌↔◌, ◌≢◌}
use mathlib.Core.Bool.{Bool, true, false, ◌&&◌}
use mathlib.Core.List.{List, [], ◌∷◌}
use native.Mathlib.Omega.{arith}
use text.Mathlib.Text.{◌==◌ as str_eq}
use text.Mathlib.TextEquality.{eq_iff}
use falak.Prelude.Tests.{nat_beq, nat_beq_iff}

-- Types whose values `==` compares, and that the test decides equality.
pub record Eq {ℓ} (K : Type ℓ) : Type ℓ where
  pub beq : K → K → Bool
  pub beq_iff : (j k : K) → (beq j k ≡ true) ↔ (j ≡ k)

instance abbrev pub string_eq : Eq String
string_eq = record { beq = str_eq; beq_iff = eq_iff }

infix 50 ◌==◌
abbrev pub ◌==◌ {ℓ} : {K : Type ℓ} ⦃test : Eq K⦄ → K → K → Bool
◌==◌ ⦃test⦄ j k = test.beq j k

-- A struct of two comparable fields is compared field by field.
module _ {ℓ κ} {J : Type ℓ} {K : Type κ} ⦃e : Eq J⦄ ⦃f : Eq K⦄ where
  abbrev pub pair_beq : J × K → J × K → Bool
  pair_beq (a, b) (c, d) = a == c && b == d

  pub pair_beq_iff : (p q : J × K) → (pair_beq p q ≡ true) ↔ (p ≡ q)
  pair_beq_iff (a, b) (c, d) = ground (arith, e.beq_iff a c, f.beq_iff b d)

  instance abbrev pub pair_eq : Eq (J × K)
  pair_eq = record { beq = pair_beq; beq_iff = pair_beq_iff }

-- Byte strings.
module _ {ℓ} {K : Type ℓ} ⦃e : Eq K⦄ where
  abbrev pub list_beq : List K → List K → Bool
  list_beq [] [] = true
  list_beq (x ∷ xs) (y ∷ ys) = x == y && list_beq xs ys
  list_beq _ _ = false

  pub list_beq_iff : (xs ys : List K) → (list_beq xs ys ≡ true) ↔ (xs ≡ ys)
  list_beq_iff [] [] = ground arith
  list_beq_iff [] (y ∷ ys) = ground arith
  list_beq_iff (x ∷ xs) [] = ground arith
  list_beq_iff (x ∷ xs) (y ∷ ys) = ground (arith, e.beq_iff x y, list_beq_iff xs ys)

  instance abbrev pub list_eq : Eq (List K)
  list_eq = record { beq = list_beq; beq_iff = list_beq_iff }

instance abbrev pub nat_eq : Eq ℕ
nat_eq = record { beq = nat_beq; beq_iff = nat_beq_iff }

module _ {ℓ} {K : Type ℓ} ⦃e : Eq K⦄ where
  pub beq_refl : (k : K) → (k == k) ≡ true
  beq_refl k = (e.beq_iff k k).1 refl

  pub eq_of_beq : (j k : K) → (j == k) ≡ true → j ≡ k
  eq_of_beq j k h = (e.beq_iff j k).0 h

  pub beq_of_ne : (j k : K) → j ≢ k → (j == k) ≡ false
  beq_of_ne j k h = ground (arith, e.beq_iff j k)

  pub ne_of_beq : (j k : K) → (j == k) ≡ false → j ≢ k
  ne_of_beq j k h = ground (arith, e.beq_iff j k)

  pub beq_comm : (j k : K) → (j == k) ≡ (k == j)
  beq_comm j k = ground (arith, e.beq_iff j k, e.beq_iff k j)
