-- ===== src/Capsule/Store.antt =====
-- capsule/store.go, and the capsule of capsule/capsule.go. The cache is a map from IDs to capsules,
-- whose order stands for the order in which Go ranges over it. Of the database the store sees
-- whether a statement succeeds, `written`; a store in memory has none. Times are `now`.
use falak.Prelude.{
  ℕ, Bool, true, false, not, ◌&&◌, List, [], ◌∷◌, Option, none, some, String, Map, lookup, insert,
  delete, has, map, keep, length, ◌==◌, string_eq, if◌then◌else◌,
}
use falak.Prelude.Int.{ℤ}
use falak.Capsule.Types.{CapsuleStatus, status_eq}
use falak.Capsule.Labels.{Labels, labels_match}
use falak.Spec.Records.{CapsuleSpec}

pub record MomentumState : Type 0 where
  pub current : ℤ
  pub base : ℤ
  pub last_adjusted : ℕ

pub record ReplicaState : Type 0 where
  pub replica_id : String
  pub node_id : String
  pub status : CapsuleStatus
  pub started_at : ℕ

pub record Capsule : Type 0 where
  pub id : String
  pub cluster_id : String
  pub spec : CapsuleSpec
  pub status : CapsuleStatus
  pub replicas : List ReplicaState
  pub momentum : MomentumState
  pub version : String
  pub created_at : ℕ
  pub updated_at : ℕ

pub record Store : Type 0 where
  pub capsules : Map String Capsule
  pub has_db : Bool

pub data StoreError : Type 0 where
  already_exists not_found persist_failed : StoreError

unfoldable pub new_store : Store
new_store = record { capsules = []; has_db = false }

-- `loadAll` over the scanned rows.
unfoldable pub load_all : Map String Capsule → List Capsule → Map String Capsule
load_all cache [] = cache
load_all cache (c ∷ rows) = load_all (insert c.id c cache) rows

unfoldable pub open_store : List Capsule → Store
unfolding load_all
open_store rows = record { capsules = load_all [] rows; has_db = true }

-- `if s.db != nil { if err := …`.
abbrev pub db_fails : Store → Bool → Bool
db_fails s written = s.has_db && not written

unfoldable pub create : Store → ℕ → Bool → Capsule → Store × Option StoreError
create s now written c =
    let stamped = record c { created_at = now; updated_at = now } in
    if has (lookup c.id s.capsules)
    then (s, some already_exists)
    else if db_fails s written
    then (s, some persist_failed)
    else (record s { capsules = insert c.id stamped s.capsules }, none)

unfoldable pub get : Store → String → Option Capsule
get s id = lookup id s.capsules

abbrev pub values : Map String Capsule → List Capsule
values = map (λ entry. entry.1)

unfoldable pub find_by_name : String → List Capsule → Option Capsule
find_by_name name [] = none
find_by_name name (c ∷ cs) = if c.spec.name == name then some c else find_by_name name cs

unfoldable pub get_by_name : Store → String → Option Capsule
unfolding find_by_name
get_by_name s name = find_by_name name (values s.capsules)

unfoldable pub update : Store → ℕ → Bool → Capsule → Store × Option StoreError
update s now written c =
    let stamped = record c { updated_at = now } in
    if not (has (lookup c.id s.capsules))
    then (s, some not_found)
    else if db_fails s written
    then (s, some persist_failed)
    else (record s { capsules = insert c.id stamped s.capsules }, none)

unfoldable pub remove : Store → Bool → String → Store × Option StoreError
remove s written id =
    if not (has (lookup id s.capsules))
    then (s, some not_found)
    else if db_fails s written
    then (s, some persist_failed)
    else (record s { capsules = delete id s.capsules }, none)

unfoldable pub list : Store → List Capsule
list s = values s.capsules

unfoldable pub list_by_orbit : Store → String → List Capsule
list_by_orbit s orbit = keep (λ c. c.spec.orbit == orbit) (values s.capsules)

unfoldable pub list_by_labels : Store → Labels → List Capsule
list_by_labels s labels = keep (λ c. labels_match c.spec.labels labels) (values s.capsules)

unfoldable pub list_by_status : Store → CapsuleStatus → List Capsule
list_by_status s status = keep (λ c. c.status == status) (values s.capsules)

unfoldable pub count : Store → ℕ
count s = length s.capsules
