-- ===== src/Snapshot.antt =====
-- snapshot/store.go: the snapshot table, a list of rows with one row per (capsule ID, tag), and the
-- evictions. Times and lifetimes are in seconds; a statement is taken to succeed. `ORDER BY
-- created_at DESC` is an insertion sort.
mod Eviction
mod Expiry
mod Tests
use falak.Prelude.{
  ℕ, ◌+◌, Bool, true, false, not, ◌&&◌, ◌||◌, List, [], ◌∷◌, ◌++◌, map, Option, none, some, String,
  string_eq, ◌==◌, ltb, keep, if◌then◌else◌,
}

pub record Record : Type 0 where
  pub capsule_id : String
  pub tag : String
  pub size : ℕ
  pub path : String
  pub checksum : String
  pub created_at : ℕ
  pub last_accessed : ℕ
  pub ttl : ℕ
  pub in_use : Bool

pub record Store : Type 0 where
  pub rows : List Record

pub is_row : String → String → Record → Bool
is_row id tag r = r.capsule_id == id && r.tag == tag

pub delete : Store → String → String → Store
unfolding is_row
delete s id tag = record { rows = keep (λ r. not (is_row id tag r)) s.rows }

-- `INSERT OR REPLACE`.
pub put : Store → Record → Store
unfolding delete
put s rec = record { rows = (delete s rec.capsule_id rec.tag).rows ++ rec ∷ [] }

pub find_row : String → String → List Record → Option Record
unfolding is_row
find_row id tag [] = none
find_row id tag (r ∷ rs) = if is_row id tag r then some r else find_row id tag rs

pub get : Store → String → String → Option Record
unfolding find_row
get s id tag = find_row id tag s.rows

-- The rows of an earlier creation come later.
pub place : Record → List Record → List Record
place r [] = r ∷ []
place r (q ∷ qs) = if ltb r.created_at q.created_at then q ∷ place r qs else r ∷ q ∷ qs

pub newest_first : List Record → List Record
unfolding place
newest_first [] = []
newest_first (r ∷ rs) = place r (newest_first rs)

pub list_by_capsule : Store → String → List Record
unfolding newest_first
list_by_capsule s id = newest_first (keep (λ r. r.capsule_id == id) s.rows)

pub touch_access : Store → String → String → ℕ → Store
unfolding is_row
touch_access s id tag now = record {
  rows = map (λ r. if is_row id tag r then record r { last_accessed = now } else r) s.rows;
}

pub set_in_use : Store → String → String → Bool → Store
unfolding is_row
set_in_use s id tag in_use = record {
  rows = map (λ r. if is_row id tag r then record r { in_use = in_use } else r) s.rows;
}

pub delete_by_capsule : Store → String → Store
delete_by_capsule s id = record { rows = keep (λ r. not (r.capsule_id == id)) s.rows }

-- The loops over the evicted rows.
pub delete_rows : Store → List Record → Store
unfolding delete
delete_rows s [] = s
delete_rows s (r ∷ rs) = delete_rows (delete s r.capsule_id r.tag) rs

pub is_expired : ℕ → Record → Bool
is_expired now r = not r.in_use && ltb (r.last_accessed + r.ttl) now

pub evict_expired : Store → ℕ → Store × List Record
unfolding delete_rows is_expired
evict_expired s now = let evicted = keep (is_expired now) s.rows in (delete_rows s evicted, evicted)

-- The loop of `EvictOverCap`: the rows that it evicts, `kept` rows having been kept.
pub evict_past : ℕ → ℕ → List Record → List Record
evict_past cap_size kept [] = []
evict_past cap_size kept (r ∷ rs) =
    elim ((ltb kept cap_size || r.in_use) && (not r.in_use || ltb kept cap_size)) [
      | true ↦ evict_past cap_size (kept + 1) rs
      | false ↦ r ∷ evict_past cap_size kept rs
    ]

pub evict_over_cap : Store → String → ℕ → Store × List Record
unfolding delete_rows evict_past list_by_capsule
evict_over_cap s id max_per_capsule =
    let evicted = evict_past max_per_capsule 0 (list_by_capsule s id) in
    (delete_rows s evicted, evicted)
