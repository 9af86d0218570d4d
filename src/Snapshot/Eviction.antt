-- ===== src/Snapshot/Eviction.antt =====
-- What the evictions of snapshot/store.go remove.
use falak.Prelude.{
  ◌≡◌, refl, true, not, List, [], ◌∷◌, ◌++◌, some, String, string_eq, keep, arith, Bool-cases, inl,
  inr, beq_refl,
}
use falak.Snapshot.{Record, Store, is_row, delete, put, find_row, get}

find_row-append :
    (id tag : String) (rs : List Record) (r : Record)
    → is_row id tag r ≡ true
    → find_row id tag (keep (λ q. not (is_row id tag q)) rs ++ r ∷ []) ≡ some r
unfolding find_row keep
find_row-append id tag [] r h = rw h refl
find_row-append id tag (q ∷ rs) r h = elim (Bool-cases (is_row id tag q)) [
  | inl e ↦ rw e (find_row-append id tag rs r h)
  | inr e ↦ rw (e, find_row, e) (find_row-append id tag rs r h)
]

-- A row that is put is the one that its capsule ID and tag give, whatever the table held.
pub get-put : (s : Store) (r : Record) → get (put s r) r.capsule_id r.tag ≡ some r
unfolding get put delete is_row
get-put s r =
    find_row-append r.capsule_id r.tag s.rows r
      (ground (arith, beq_refl r.capsule_id, beq_refl r.tag))
