-- ===== src/Snapshot/Tests.antt =====
-- The theorems about the snapshot store at a concrete table.
use falak.Prelude.{refl, ℕ, Bool, true, false, [], ◌∷◌, String}
use falak.Snapshot.{Record, Store, is_row}
use falak.Snapshot.Expiry.{UniqueRows}

abbrev taken : String → ℕ → Bool → Record
taken tag at in_use = record {
  capsule_id = "web";
  tag = tag;
  size = 1;
  path = tag;
  checksum = "";
  created_at = at;
  last_accessed = at;
  ttl = 60;
  in_use = in_use;
}

-- The oldest snapshot is in use.
abbrev table : Store
table = record { rows = taken "v1" 1 true ∷ taken "v2" 2 false ∷ [] }

table-UniqueRows : UniqueRows table.rows
unfolding is_row
table-UniqueRows = ((refl, tt), (tt, tt))
