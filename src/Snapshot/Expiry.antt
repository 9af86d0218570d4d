-- ===== src/Snapshot/Expiry.antt =====
-- What the expiry of snapshot/store.go removes.
use falak.Prelude.{
  ℕ, ◌≡◌, refl, ◌∙◌, ap, Bool, true, false, not, List, [], ◌∷◌, ◌++◌, string_eq, keep, arith,
  Bool-cases, inl, inr,
}
use text.Mathlib.TextEquality.{eq_iff}
use falak.Snapshot.{Record, Store, is_row, delete, put, delete_rows, is_expired, evict_expired}

-- No row has the capsule ID and the tag of `r`.
abbrev pub Fresh : Record → List Record → Type 0
Fresh r [] = Unit
Fresh r (q ∷ qs) = (is_row r.capsule_id r.tag q ≡ false) × Fresh r qs

-- The primary key of the table: no two rows agree in capsule ID and tag.
abbrev pub UniqueRows : List Record → Type 0
UniqueRows [] = Unit
UniqueRows (r ∷ rs) = Fresh r rs × UniqueRows rs

is_row-swap :
    (q r : Record) → is_row r.capsule_id r.tag q ≡ false → is_row q.capsule_id q.tag r ≡ false
unfolding is_row
is_row-swap q r h = ground (
  arith,
  eq_iff q.capsule_id r.capsule_id,
  eq_iff r.capsule_id q.capsule_id,
  eq_iff q.tag r.tag,
  eq_iff r.tag q.tag,
)

is_row_self : (r : Record) → is_row r.capsule_id r.tag r ≡ true
unfolding is_row
is_row_self r = ground (arith, eq_iff r.capsule_id r.capsule_id, eq_iff r.tag r.tag)

keep-Fresh :
    (r : Record) (rs : List Record)
    → Fresh r rs
    → keep (λ q. not (is_row r.capsule_id r.tag q)) rs ≡ rs
unfolding keep
keep-Fresh r [] f = refl
keep-Fresh r (q ∷ qs) f = rw f.0 (ap (λ t. q ∷ t) (keep-Fresh r qs f.1))

Fresh-keep : (p : Record → Bool) (r : Record) (rs : List Record) → Fresh r rs → Fresh r (keep p rs)
unfolding keep
Fresh-keep p r [] f = tt
Fresh-keep p r (q ∷ qs) f = elim (Bool-cases (p q)) [
  | inl h ↦ rw h (f.0, Fresh-keep p r qs f.1)
  | inr h ↦ rw h (Fresh-keep p r qs f.1)
]

delete-Fresh :
    (r : Record) (rs : List Record)
    → Fresh r rs
    → delete (record { rows = r ∷ rs }) r.capsule_id r.tag ≡ record { rows = rs }
unfolding delete keep
delete-Fresh r rs f = rw (is_row_self r) (ap (λ t. record { rows = t }) (keep-Fresh r rs f))

delete_rows-head :
    (r : Record) (rs evicted : List Record)
    → Fresh r rs
    → (delete_rows (record { rows = r ∷ rs }) (r ∷ evicted)).rows
      ≡ (delete_rows (record { rows = rs }) evicted).rows
unfolding delete_rows
delete_rows-head r rs evicted f = ap (λ s. (delete_rows s evicted).rows) (delete-Fresh r rs f)

-- Deletions of other rows leave the first row.
delete_rows-Fresh :
    (r : Record) (rs evicted : List Record)
    → Fresh r evicted
    → (delete_rows (record { rows = r ∷ rs }) evicted).rows
      ≡ r ∷ (delete_rows (record { rows = rs }) evicted).rows
unfolding delete_rows delete keep
delete_rows-Fresh r rs [] f = refl
delete_rows-Fresh r rs (e ∷ es) f =
    rw (delete_rows, is_row-swap e r f.0)
      (delete_rows-Fresh r (keep (λ q. not (is_row e.capsule_id e.tag q)) rs) es f.1)

delete_rows-keep :
    (p : Record → Bool) (rs : List Record)
    → UniqueRows rs
    → (delete_rows (record { rows = rs }) (keep p rs)).rows ≡ keep (λ r. not (p r)) rs
unfolding keep
delete_rows-keep p [] u = unfold delete_rows in refl
delete_rows-keep p (r ∷ rs) u = elim (Bool-cases (p r)) [
  | inl h ↦ rw h (delete_rows-head r rs (keep p rs) u.0 ∙ delete_rows-keep p rs u.1)
  | inr h ↦ rw h (
      delete_rows-Fresh r rs (keep p rs) (Fresh-keep p r rs u.0)
      ∙ ap (λ t. r ∷ t) (delete_rows-keep p rs u.1))
]

-- In a table whose primary key is unique, `EvictExpired` leaves exactly the rows that are in use
-- or whose lifetime since the last access is not over, in their order.
pub evict_expired_lem :
    (s : Store) (now : ℕ)
    → UniqueRows s.rows
    → (evict_expired s now).0.rows ≡ keep (λ r. not (is_expired now r)) s.rows
unfolding evict_expired
evict_expired_lem s now u = delete_rows-keep (is_expired now) s.rows u

UniqueRows-keep : (p : Record → Bool) (rs : List Record) → UniqueRows rs → UniqueRows (keep p rs)
unfolding keep
UniqueRows-keep p [] u = tt
UniqueRows-keep p (r ∷ rs) u = elim (Bool-cases (p r)) [
  | inl h ↦ rw h (Fresh-keep p r rs u.0, UniqueRows-keep p rs u.1)
  | inr h ↦ rw h (UniqueRows-keep p rs u.1)
]

Fresh-keep_others :
    (r : Record) (rs : List Record) → Fresh r (keep (λ q. not (is_row r.capsule_id r.tag q)) rs)
unfolding keep
Fresh-keep_others r [] = tt
Fresh-keep_others r (q ∷ qs) = elim (Bool-cases (is_row r.capsule_id r.tag q)) [
  | inl h ↦ rw h (Fresh-keep_others r qs)
  | inr h ↦ rw h (h, Fresh-keep_others r qs)
]

Fresh-append :
    (q r : Record) (rs : List Record)
    → is_row r.capsule_id r.tag q ≡ false
    → Fresh q rs
    → Fresh q (rs ++ r ∷ [])
Fresh-append q r [] h f = (is_row-swap q r h, tt)
Fresh-append q r (x ∷ xs) h f = (f.0, Fresh-append q r xs h f.1)

append-UniqueRows :
    (r : Record) (rs : List Record) → Fresh r rs → UniqueRows rs → UniqueRows (rs ++ r ∷ [])
append-UniqueRows r [] f u = (tt, tt)
append-UniqueRows r (q ∷ qs) f u = (Fresh-append q r qs f.0 u.0, append-UniqueRows r qs f.1 u.1)

-- `Put` keeps the primary key unique.
pub put-UniqueRows : (s : Store) (r : Record) → UniqueRows s.rows → UniqueRows (put s r).rows
unfolding put delete
put-UniqueRows s r u =
    let others : Record → Bool = λ q. not (is_row r.capsule_id r.tag q) in
    append-UniqueRows r (keep others s.rows) (Fresh-keep_others r s.rows)
      (UniqueRows-keep others s.rows u)
