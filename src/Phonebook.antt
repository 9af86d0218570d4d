-- ===== src/Phonebook.antt =====
-- node/phonebook/phonebook.go and sqlite.go: the table, a list of rows in the order of insertion
-- with one row per (node ID, cluster path). Times are milliseconds since 1970, so Go's zero time is
-- a negative number. `ratio` is SQLite's quotient of two numbers as a REAL. REAL columns hold
-- floats that are not negative, given by their bit patterns. A statement that the table allows is
-- taken to succeed.
pub mod Rows
mod History
pub mod Subscriber
pub mod Samples
mod Tests
use falak.Prelude.{
  ℕ, ◌+◌, Bool, true, false, not, ◌&&◌, ◌||◌, List, [], ◌∷◌, ◌++◌, Option, none, some, String, Map,
  string_eq, nat_eq, ◌==◌, keep, any, take, length, ltb, if◌then◌else◌,
}
use falak.Prelude.Int.{ℤ, pos, negsuc, ◌-ℤ◌, eqb_ℤ, ltb_ℤ}

pub data NodeStatus : Type 0 where
  unset active suspected quarantined failed : NodeStatus

unfoldable pub same_status : NodeStatus → NodeStatus → Bool
same_status unset unset = true
same_status active active = true
same_status suspected suspected = true
same_status quarantined quarantined = true
same_status failed failed = true
same_status _ _ = false

pub record Capabilities : Type 0 where
  pub cpu_cores : ℤ
  pub memory_mb : ℤ
  pub disk_gb : ℤ
  pub datacenter : String
  pub tags : List String
  pub metadata : Map String String

pub record Entry : Type 0 where
  pub node_id : String
  pub cluster_path : String
  pub public_key : List ℕ
  pub addresses : List String
  pub region : String
  pub datacenter : String
  pub capabilities : Option Capabilities
  pub first_seen : ℤ
  pub last_seen : ℤ
  pub last_connected : ℤ
  pub updated_at : ℤ
  pub connection_attempts : ℕ
  pub connection_success : ℕ
  pub success_rate : ℕ
  pub consecutive_fails : ℕ
  pub reliability_score : ℕ
  pub last_probe_time : ℤ
  pub last_probe_success : Bool
  pub status : NodeStatus
  pub is_connected : Bool

-- `time.Time{}.UnixMilli()`.
abbrev pub zero_time : ℤ
zero_time = negsuc 62135596799999

pub record Phonebook : Type 0 where
  pub rows : List Entry

-- `WHERE node_id = ? AND cluster_path = ?`.
unfoldable pub is_entry : String → String → Entry → Bool
is_entry node cluster e = e.node_id == node && e.cluster_path == cluster

unfoldable pub find_entry : String → String → List Entry → Option Entry
find_entry node cluster [] = none
find_entry node cluster (e ∷ es) =
    if is_entry node cluster e then some e else find_entry node cluster es

unfoldable pub get : Phonebook → String → String → Option Entry
get p node cluster = find_entry node cluster p.rows

unfoldable pub exists : Phonebook → String → String → Bool
exists p node cluster = any (is_entry node cluster) p.rows

unfoldable pub get_by_cluster : Phonebook → String → List Entry
get_by_cluster p cluster = keep (λ e. e.cluster_path == cluster) p.rows

pub get_by_node : Phonebook → String → List Entry
get_by_node p node = keep (λ e. e.node_id == node) p.rows

unfoldable pub get_by_status : Phonebook → String → NodeStatus → List Entry
get_by_status p cluster status =
    keep (λ e. e.cluster_path == cluster && same_status e.status status) p.rows

-- `ORDER BY success_rate DESC, last_seen DESC`: whether the first row comes before the second.
pub ranks_above : Entry → Entry → Bool
ranks_above d e =
    ltb e.success_rate d.success_rate
    || (d.success_rate == e.success_rate && ltb_ℤ e.last_seen d.last_seen)

pub place : Entry → List Entry → List Entry
unfolding ranks_above
place e [] = e ∷ []
place e (d ∷ ds) = if ranks_above d e then d ∷ place e ds else e ∷ d ∷ ds

pub ranked : List Entry → List Entry
unfolding place
ranked [] = []
ranked (e ∷ es) = place e (ranked es)

pub get_best_peers : Phonebook → String → ℕ → List Entry
unfolding ranked same_status
get_best_peers p cluster limit =
    take limit
      (ranked (keep (λ e. e.cluster_path == cluster && same_status e.status active) p.rows))

-- A time of 0 and an empty status get their defaults.
pub new_row : ℕ → Entry → Entry
unfolding same_status
new_row now e = record e {
  first_seen = if eqb_ℤ e.first_seen (pos 0) then pos now else e.first_seen;
  last_seen = if eqb_ℤ e.last_seen (pos 0) then pos now else e.last_seen;
  updated_at = pos now;
  status = if same_status e.status unset then active else e.status;
}

-- `INSERT`, refused when the key is there.
unfoldable pub add : Phonebook → ℕ → Entry → Phonebook × Bool
unfolding exists new_row
add p now e =
    if exists p e.node_id e.cluster_path
    then (p, false)
    else (record { rows = p.rows ++ new_row now e ∷ [] }, true)

-- `UPDATE … WHERE node_id = ? AND cluster_path = ?`.
unfoldable pub modify_rows : String → String → (Entry → Entry) → List Entry → List Entry
modify_rows node cluster f [] = []
modify_rows node cluster f (e ∷ es) =
    (if is_entry node cluster e then f e else e) ∷ modify_rows node cluster f es

unfoldable pub modify : Phonebook → String → String → (Entry → Entry) → Phonebook
modify p node cluster f = record { rows = modify_rows node cluster f p.rows }

-- The columns that `Update` sets: all but the key and `first_seen`.
unfoldable pub overwrite : ℕ → Entry → Entry → Entry
overwrite now e old = record e {
  node_id = old.node_id;
  cluster_path = old.cluster_path;
  first_seen = old.first_seen;
  updated_at = pos now;
}

unfoldable pub update : Phonebook → ℕ → Entry → Phonebook
update p now e = modify p e.node_id e.cluster_path (overwrite now e)

unfoldable pub remove : Phonebook → String → String → Phonebook
remove p node cluster = record { rows = keep (λ e. not (is_entry node cluster e)) p.rows }

pub remove_all_for_node : Phonebook → String → Phonebook
remove_all_for_node p node = record { rows = keep (λ e. not (e.node_id == node)) p.rows }

module _ (ratio : ℕ → ℕ → ℕ) where
  pub attempted : ℕ → Bool → Entry → Entry
  attempted now true e = record e {
    connection_attempts = e.connection_attempts + 1;
    connection_success = e.connection_success + 1;
    success_rate = ratio (e.connection_success + 1) (e.connection_attempts + 1);
    consecutive_fails = 0;
    last_connected = pos now;
    last_seen = pos now;
    updated_at = pos now;
    is_connected = true;
  }
  attempted now false e = record e {
    connection_attempts = e.connection_attempts + 1;
    success_rate = ratio e.connection_success (e.connection_attempts + 1);
    consecutive_fails = e.consecutive_fails + 1;
    updated_at = pos now;
  }

  pub record_connection_attempt : Phonebook → ℕ → String → String → Bool → Phonebook
  unfolding attempted
  record_connection_attempt p now node cluster success =
      modify p node cluster (attempted now success)

pub record_disconnect : Phonebook → ℕ → String → String → Phonebook
record_disconnect p now node cluster =
    modify p node cluster
      (λ e. record e { is_connected = false; last_seen = pos now; updated_at = pos now })

unfoldable pub set_reliability_score : Phonebook → ℕ → String → String → ℕ → Phonebook
set_reliability_score p now node cluster score =
    modify p node cluster (λ e. record e { reliability_score = score; updated_at = pos now })

unfoldable pub set_status : Phonebook → ℕ → String → String → NodeStatus → Phonebook
set_status p now node cluster status =
    modify p node cluster (λ e. record e { status = status; updated_at = pos now })

pub record_probe : Phonebook → ℕ → String → String → Bool → Phonebook
record_probe p now node cluster success = modify p node cluster (λ e. record e {
  last_probe_time = pos now;
  last_probe_success = success;
  updated_at = pos now;
})

-- `Prune`, with the number of rows that it deletes.
pub is_stale : ℕ → ℕ → ℕ → Entry → Bool
is_stale now max_age max_fails e =
    ltb_ℤ e.last_seen (pos now -ℤ pos max_age) && ltb max_fails e.consecutive_fails

pub prune : Phonebook → ℕ → ℕ → ℕ → Phonebook × ℕ
unfolding is_stale
prune p now max_age max_fails = (
  record { rows = keep (λ e. not (is_stale now max_age max_fails e)) p.rows },
  length (keep (is_stale now max_age max_fails) p.rows),
)

pub count : Phonebook → ℕ
count p = length p.rows

unfoldable pub count_by_cluster : Phonebook → String → ℕ
count_by_cluster p cluster = length (keep (λ e. e.cluster_path == cluster) p.rows)
