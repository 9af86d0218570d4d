-- ===== src/Capsule/Labels/Matching.antt =====
-- What the label tests of capsule/labels.go decide.
use text.Mathlib.TextEquality.{eq_iff}
use falak.Prelude.{
  suc, ◌≡◌, refl, ◌≢◌, ◌∙◌, true, false, [], ◌∷◌, Option, none, some, String, lookup, insert,
  delete, lookup-insert, lookup-delete, UniqueKeys, delete-UniqueKeys, all, length, string_eq,
  arith, Bool-cases, inl, inr,
}
use falak.Capsule.Labels.{
  Labels, equals, has_label, labels_match, put_all, labels_merge, labels_equal,
}

equals-true : (o : Option String) (v : String) → equals o v ≡ true → o ≡ some v
equals-true none v h = cc
equals-true (some w) v h = ground (arith, eq_iff w v)

lookup-nil : (key : String) → lookup {V = String} key [] ≡ none
unfolding lookup
lookup-nil key = refl

all-has_label :
    (candidate required : Labels) (key value : String)
    → all (has_label candidate) required ≡ true
    → lookup key required ≡ some value
    → lookup key candidate ≡ some value
unfolding all lookup
all-has_label candidate [] key value h r = cc
all-has_label candidate ((k, v) ∷ required) key value h r = ground (
  arith,
  eq_iff k key,
  equals-true (lookup k candidate) v,
  all-has_label candidate required key value,
)

-- Labels that match have every required key with the required value.
pub labels_match-lookup :
    (candidate required : Labels) (key value : String)
    → labels_match candidate required ≡ true
    → lookup key required ≡ some value
    → lookup key candidate ≡ some value
unfolding labels_match
labels_match-lookup = all-has_label

-- Labels that do not match lack a required key, or have it with another value.
pub labels_match-false :
    (candidate required : Labels)
    → UniqueKeys required
    → labels_match candidate required ≡ false
    → (key : String) × (value : String) × (lookup key required ≡ some value)
      × (lookup key candidate ≢ some value)
unfolding labels_match all lookup
labels_match-false candidate [] u h = absurd (ground arith)
labels_match-false candidate ((k, v) ∷ required) u h =
    elim (Bool-cases (equals (lookup k candidate) v)) [
      | inl e ↦
          let (key, value, r, c) = labels_match-false candidate required u.1 (ground arith) in
          (key, value, ground (arith, eq_iff k key), c)
      | inr e ↦ (k, v, ground (arith, eq_iff k k), ground (arith, eq_iff v v))
    ]

lookup-put_all :
    (result m : Labels) (key : String)
    → UniqueKeys m
    → lookup key (put_all result m)
      ≡ (elim (lookup key m) [ none ↦ lookup key result | some v ↦ some v ])
unfolding put_all lookup
lookup-put_all result [] key u = refl
lookup-put_all result ((k, v) ∷ m) key u = ground (
  arith,
  eq_iff k key,
  lookup-put_all (insert k v result) m key u.1,
  lookup-insert k key v result,
)

-- A merged map has the override's value of a key where it has one, and the base's otherwise.
pub lookup-labels_merge :
    (base overrides : Labels) (key : String)
    → UniqueKeys base
    → UniqueKeys overrides
    → lookup key (labels_merge base overrides)
      ≡ (elim (lookup key overrides) [ none ↦ lookup key base | some v ↦ some v ])
unfolding labels_merge
lookup-labels_merge base overrides key p q =
    lookup-put_all (put_all [] base) overrides key q
    ∙ ground (arith, lookup-put_all [] base key p, lookup-nil key)

length-delete-none : (k : String) (m : Labels) → lookup k m ≡ none → length (delete k m) ≡ length m
unfolding lookup delete
length-delete-none k [] h = refl
length-delete-none k ((j, w) ∷ m) h = ground (arith, length-delete-none k m)

length-delete :
    (k v : String) (m : Labels)
    → UniqueKeys m
    → lookup k m ≡ some v
    → length m ≡ suc (length (delete k m))
unfolding lookup delete
length-delete k v [] u h = cc
length-delete k v ((j, w) ∷ m) u h =
    ground (
      arith,
      eq_iff j k,
      length-delete k v m u.1,
      length-delete-none j m u.0,
      length-delete-none k m,
    )

all-has_label-delete :
    (k : String) (a b : Labels)
    → lookup k a ≡ none
    → all (has_label b) a ≡ true
    → all (has_label (delete k b)) a ≡ true
unfolding all lookup
all-has_label-delete k [] b n h = refl
all-has_label-delete k ((j, v) ∷ a) b n h =
    ground (arith, eq_iff j k, eq_iff k j, lookup-delete k j b, all-has_label-delete k a b)

equal_lookups :
    (a b : Labels) (key : String)
    → UniqueKeys a
    → UniqueKeys b
    → length a ≡ length b
    → all (has_label b) a ≡ true
    → lookup key a ≡ lookup key b
unfolding all lookup
equal_lookups [] [] key u w l h = refl
equal_lookups [] (x ∷ b) key u w l h = absurd (omega arith)
equal_lookups ((k, v) ∷ a) b key u w l h =
    let here : lookup k b ≡ some v = equals-true (lookup k b) v (ground arith) in
    let rest =
      equal_lookups a (delete k b) key u.1 (delete-UniqueKeys k b w)
        (omega (arith, length-delete k v b w here))
        (all-has_label-delete k a b u.0 (ground arith)) in
    ground (arith, eq_iff k key, lookup-delete k key b, here, rest)

-- Label sets that are found equal agree at every key.
pub labels_equal-lookup :
    (a b : Labels) (key : String)
    → UniqueKeys a
    → UniqueKeys b
    → labels_equal a b ≡ true
    → lookup key a ≡ lookup key b
unfolding labels_equal
labels_equal-lookup a b key u w h = equal_lookups a b key u w (ground arith) (ground arith)

-- No requirement is always met.
pub labels_match-nil : (candidate : Labels) → labels_match candidate [] ≡ true
unfolding labels_match all
labels_match-nil candidate = refl
