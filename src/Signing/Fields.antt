-- ===== src/Signing/Fields.antt =====
-- One length-prefixed field of node/internal/signing/buffer.go, and a list of them, read back.
use mathlib.Core.List.{append_assoc}
use falak.Prelude.{ℕ, ◌<◌, ◌^◌, ◌≡◌, refl, sym, ◌∙◌, List, [], ◌∷◌, ◌++◌, length, All, arith}
use falak.Signing.{Bytes, put_uint32, put_uint64}

-- A field whose length the four bytes hold.
abbrev pub Fits : Bytes → Type 0
Fits field = length field < 2 ^ 32

pub put_uint32-injective : (n m : ℕ) → n < 2 ^ 32 → m < 2 ^ 32 → put_uint32 n ≡ put_uint32 m → n ≡ m
unfolding put_uint32
put_uint32-injective n m p q h = ground arith

pub append-split {ℓ} :
    {A : Type ℓ} (a b r s : List A) → length a ≡ length b → a ++ r ≡ b ++ s → (a ≡ b) × (r ≡ s)
append-split [] [] r s l h = (refl, h)
append-split [] (y ∷ b) r s l h = absurd (omega arith)
append-split (x ∷ a) [] r s l h = absurd (omega arith)
append-split (x ∷ a) (y ∷ b) r s l h =
    let (p, q) = append-split a b r s (omega arith) (cc) in (cc, q)

pub put_uint32_same_length : (n m : ℕ) → length (put_uint32 n) ≡ length (put_uint32 m)
unfolding put_uint32
put_uint32_same_length n m = refl

-- One field and what follows it are read back from the bytes.
pub field-split :
    (a b r s : Bytes)
    → Fits a
    → Fits b
    → put_uint32 (length a) ++ (a ++ r) ≡ put_uint32 (length b) ++ (b ++ s)
    → (a ≡ b) × (r ≡ s)
unfolding put_uint32
field-split a b r s p q h =
    let (heads, tails) = append-split (put_uint32 (length a)) (put_uint32 (length b)) _ _ refl h in
    append-split a b r s (put_uint32-injective (length a) (length b) p q heads) tails

unfoldable pub prefixed : Bytes → Bytes
prefixed a = put_uint32 (length a) ++ a

unfoldable pub prefixed_all : List Bytes → Bytes
unfolding prefixed
prefixed_all [] = []
prefixed_all (s ∷ ss) = prefixed s ++ prefixed_all ss

pub prefixed-split :
    (a b r s : Bytes) → Fits a → Fits b → prefixed a ++ r ≡ prefixed b ++ s → (a ≡ b) × (r ≡ s)
unfolding prefixed
prefixed-split a b r s p q h =
    field-split a b r s p q (
      sym (append_assoc (put_uint32 (length a)) a r) ∙ h ∙ append_assoc (put_uint32 (length b)) b s)

pub prefixed_all-split :
    (ss ts : List Bytes) (r s : Bytes)
    → length ss ≡ length ts
    → All Fits ss
    → All Fits ts
    → prefixed_all ss ++ r ≡ prefixed_all ts ++ s
    → (ss ≡ ts) × (r ≡ s)
unfolding prefixed_all
prefixed_all-split [] [] r s l p q h = (refl, h)
prefixed_all-split [] (t ∷ ts) r s l p q h = absurd (omega arith)
prefixed_all-split (x ∷ ss) [] r s l p q h = absurd (omega arith)
prefixed_all-split (x ∷ ss) (t ∷ ts) r s l p q h =
    let (same, rest) = prefixed-split x t _ _ p.0 q.0 (
      sym (append_assoc (prefixed x) (prefixed_all ss) r)
      ∙ h
      ∙ append_assoc (prefixed t) (prefixed_all ts) s) in
    let (sames, tails) = prefixed_all-split ss ts r s (omega arith) p.1 q.1 rest in (cc, tails)

pub put_uint64-injective : (n m : ℕ) → n < 2 ^ 64 → m < 2 ^ 64 → put_uint64 n ≡ put_uint64 m → n ≡ m
unfolding put_uint64
put_uint64-injective n m p q h = ground arith
