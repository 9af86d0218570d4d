-- ===== src/Prelude/Texts.antt =====
-- Go's `<` on strings, by code points, which is the order of the bytes of their UTF-8.
use Prim.Native.Nat.compare as compare_ℕ
use Prim.Native.Nat.{ℕ, zero, suc, Ordering, compare as compare_ℕ}
use Prim.Native.Char.{code}
use Prim.Native.String.compare
use Prim.Native.String.{String, [], ◌∷◌, compare, then}
use mathlib.Core.Path.{◌≡◌, refl, sym, ◌∙◌, ap}
use mathlib.Core.Logic.{◌≢◌}
use mathlib.Core.Bool.{Bool, true, false, not}
use text.Mathlib.Text.{is_lt}
use text.Mathlib.TextEquality.{path_by_compare}

abbrev pub string_ltb : String → String → Bool
string_ltb s t = is_lt (compare s t)

abbrev flip : Ordering → Ordering
flip Ordering.lt = Ordering.gt
flip Ordering.eq = Ordering.eq
flip Ordering.gt = Ordering.lt

then-flip : (o r : Ordering) → then (flip o) (flip r) ≡ flip (then o r)
then-flip Ordering.lt r = refl
then-flip Ordering.eq r = refl
then-flip Ordering.gt r = refl

nat_compare-flip : (m n : ℕ) → compare_ℕ m n ≡ flip (compare_ℕ n m)
nat_compare-flip zero zero = refl
nat_compare-flip zero (suc n) = compare_ℕ.zero-suc n ∙ ap flip (sym (compare_ℕ.suc-zero n))
nat_compare-flip (suc m) zero = compare_ℕ.suc-zero m ∙ ap flip (sym (compare_ℕ.zero-suc m))
nat_compare-flip (suc m) (suc n) =
    compare_ℕ.suc-suc m n ∙ nat_compare-flip m n ∙ ap flip (sym (compare_ℕ.suc-suc n m))

compare-flip : (s t : String) → compare s t ≡ flip (compare t s)
compare-flip [] [] = refl
compare-flip [] (d ∷ t) = compare.nil-cons d t ∙ ap flip (sym (compare.cons-nil d t))
compare-flip (c ∷ s) [] = compare.cons-nil c s ∙ ap flip (sym (compare.nil-cons c s))
compare-flip (c ∷ s) (d ∷ t) =
    compare.cons-cons c d s t
    ∙ ap (λ o. then o (compare s t)) (nat_compare-flip (code c) (code d))
    ∙ ap (then (flip (compare_ℕ (code d) (code c)))) (compare-flip s t)
    ∙ then-flip (compare_ℕ (code d) (code c)) (compare t s)
    ∙ ap flip (sym (compare.cons-cons d c t s))

lt-flip : (o : Ordering) → o ≢ Ordering.eq → is_lt (flip o) ≡ not (is_lt o)
lt-flip Ordering.lt h = refl
lt-flip Ordering.eq h = absurd (h refl)
lt-flip Ordering.gt h = refl

lt-flip_asym : (o : Ordering) → is_lt o ≡ true → is_lt (flip o) ≡ false
lt-flip_asym Ordering.lt h = refl
lt-flip_asym Ordering.eq h = refl
lt-flip_asym Ordering.gt h = let no : ⊥ = cc in absurd no

-- Of two different strings exactly one is the smaller.
pub string_ltb-total : (s t : String) → s ≢ t → string_ltb t s ≡ not (string_ltb s t)
string_ltb-total s t h =
    ap is_lt (compare-flip t s) ∙ lt-flip (compare s t) (λ e. h (path_by_compare s t e))

pub string_ltb-asym : (s t : String) → string_ltb s t ≡ true → string_ltb t s ≡ false
string_ltb-asym s t h = ap is_lt (compare-flip t s) ∙ lt-flip_asym (compare s t) h
