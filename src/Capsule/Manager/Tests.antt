-- ===== src/Capsule/Manager/Tests.antt =====
-- The theorems about the manager on concrete runs.
use falak.Prelude.{ℕ, ◌≡◌, refl, true, false, List, [], ◌∷◌, some, lookup, string_eq}
use falak.Capsule.Types.{announced, assigned, running, status_valid}
use falak.Capsule.Lifecycle.{election_started, election_won, new_lifecycle}
use falak.Capsule.Lifecycle
use falak.Capsule.Lifecycle.Table.{table_engine}
use falak.Capsule.Store
use falak.Capsule.Store.{Store, Capsule, new_store, persist_failed, db_fails}
use falak.Capsule.Samples.{web_at}
use falak.Capsule.Manager.{Manager, new_manager, store_failed, set_status, sync_status, receive}
use falak.Capsule.Manager.Firing.{status_of}
use falak.Capsule.Manager.Runs.{Call, fired, received}
use falak.Capsule.Manager.Mesh.{receive-stale, sync_status-refused}

-- A capsule arrives, is elected, and the second write fails.
abbrev calls : List (ℕ × Call)
calls =
    (1, received true (web_at announced))
    ∷ (2, fired true "c1" election_started)
    ∷ (3, fired false "c1" election_won)
    ∷ []

abbrev empty_manager : Manager
empty_manager = new_manager new_store

-- The store has no database, so no write fails.
abbrev web_assigned : Capsule
web_assigned = record (web_at assigned) { created_at = 1; updated_at = 3 }

-- A store with a database that holds the capsule as announced.
abbrev stored_manager : Manager
stored_manager = record {
  store = record { capsules = ("c1", web_at announced) ∷ []; has_db = true };
  lifecycles = ("c1", new_lifecycle "c1" announced) ∷ [];
  events = [];
}

web-stored : lookup "c1" stored_manager.store.capsules ≡ some (web_at announced)
unfolding lookup
web-stored = refl

receive-stale_example :
    (lookup "c1" (receive stored_manager 5 true (web_at running)).0.store.capsules
      ≡ some (record (web_at running) { updated_at = 5 }))
    × (status_of table_engine (receive stored_manager 5 true (web_at running)).0 "c1"
        ≡ status_of table_engine stored_manager "c1")
receive-stale_example =
    receive-stale table_engine stored_manager 5 true (web_at running) (web_at announced) web-stored
      refl

running-valid : status_valid running ≡ true
unfolding status_valid
running-valid = refl

sync_status-refused_example :
    ((sync_status stored_manager 5 false "c1" running).1 ≡ some (store_failed persist_failed))
    × (lookup "c1" (sync_status stored_manager 5 false "c1" running).0.store.capsules
        ≡ some (set_status running 5 (web_at announced)))
    × (status_of table_engine (sync_status stored_manager 5 false "c1" running).0 "c1"
        ≡ status_of table_engine stored_manager "c1")
sync_status-refused_example =
    sync_status-refused table_engine stored_manager 5 false running (web_at announced) web-stored
      running-valid refl
