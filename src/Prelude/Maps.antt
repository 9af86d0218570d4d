-- ===== src/Prelude/Maps.antt =====
-- Go's `map[K]V` as an association list: the first entry of a key counts, a deletion drops every
-- entry of the key, and a map that the code can build holds each key once (`UniqueKeys`).
use mathlib.Core.Path.{◌≡◌, refl}
use mathlib.Core.Bool.{Bool, true, false}
use mathlib.Core.Option.{Option, none, some}
use mathlib.Core.List.{List, [], ◌∷◌}
use native.Mathlib.Omega.{arith}
use falak.Prelude.Tests.{if◌then◌else◌}
use falak.Prelude.Equality.{Eq, ◌==◌, beq_refl}

abbrev pub Map {ℓ κ} : Type ℓ → Type κ → Type (ℓ ⊔ κ)
Map K V = List (K × V)

abbrev pub has {ℓ} : {V : Type ℓ} → Option V → Bool
has none = false
has (some v) = true

module _ {ℓ κ} {K : Type ℓ} {V : Type κ} ⦃e : Eq K⦄ where
  -- `v, ok := m[k]`.
  unfoldable pub lookup : K → Map K V → Option V
  lookup key [] = none
  lookup key ((other, v) ∷ rest) = if other == key then some v else lookup key rest

  -- `m[k] = v`.
  unfoldable pub insert : K → V → Map K V → Map K V
  insert key new [] = (key, new) ∷ []
  insert key new ((other, v) ∷ rest) =
      if other == key then (key, new) ∷ rest else (other, v) ∷ insert key new rest

  -- `delete(m, k)`.
  unfoldable pub delete : K → Map K V → Map K V
  delete key [] = []
  delete key ((other, v) ∷ m) =
      let rest = delete key m in if other == key then rest else (other, v) ∷ rest

  pub lookup-insert :
      (k j : K) (v : V) (m : Map K V)
      → lookup j (insert k v m) ≡ (if k == j then some v else lookup j m)
  unfolding insert lookup
  lookup-insert k j v [] = refl
  lookup-insert k j v ((i, w) ∷ rest) =
      ground (arith, e.beq_iff k j, e.beq_iff i k, e.beq_iff i j, lookup-insert k j v rest)

  pub lookup-delete :
      (k j : K) (m : Map K V) → lookup j (delete k m) ≡ (if k == j then none else lookup j m)
  unfolding lookup delete
  lookup-delete k j [] = ground arith
  lookup-delete k j ((i, w) ∷ m) =
      ground (arith, e.beq_iff k j, e.beq_iff i k, e.beq_iff i j, lookup-delete k j m)

  pub lookup-insert_self : (k : K) (v : V) (m : Map K V) → lookup k (insert k v m) ≡ some v
  lookup-insert_self k v m = rw (lookup-insert k k v m, beq_refl k)

  pub lookup-insert_other :
      (k j : K) (v : V) (m : Map K V) → (k == j) ≡ false → lookup j (insert k v m) ≡ lookup j m
  lookup-insert_other k j v m h = rw (lookup-insert k j v m, h)

  pub lookup-delete_self : (k : K) (m : Map K V) → lookup k (delete k m) ≡ none
  lookup-delete_self k m = rw (lookup-delete k k m, beq_refl k)

  abbrev pub UniqueKeys : Map K V → Type κ
  UniqueKeys [] = Unit
  UniqueKeys ((k, v) ∷ m) = (lookup k m ≡ none) × UniqueKeys m

  pub insert-UniqueKeys : (k : K) (v : V) (m : Map K V) → UniqueKeys m → UniqueKeys (insert k v m)
  unfolding insert lookup
  insert-UniqueKeys k v [] u = (refl, tt)
  insert-UniqueKeys k v ((j, w) ∷ m) u =
      ground
        (arith, e.beq_iff j k, e.beq_iff k j, insert-UniqueKeys k v m u.1, lookup-insert k j v m)

  pub delete-UniqueKeys : (k : K) (m : Map K V) → UniqueKeys m → UniqueKeys (delete k m)
  unfolding delete lookup
  delete-UniqueKeys k [] u = tt
  delete-UniqueKeys k ((j, w) ∷ m) u =
      ground (arith, delete-UniqueKeys k m u.1, lookup-delete k j m)

pub ruleset map_laws = (lookup-insert_self, lookup-delete_self, lookup-insert, lookup-delete)
