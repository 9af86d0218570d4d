-- ===== src/Capsule/Manager/Mesh.antt =====
-- Where the cache and the state machines of capsule/manager.go part, and where `SyncStatus` joins
-- them: what the mesh and a failing database do to a capsule that is known.
use falak.Prelude.{
  ℕ, ◌≡◌, refl, ◌∙◌, ap, Bool, true, false, none, some, string_eq, lookup, insert,
  lookup-insert_self,
}
use falak.Capsule.Types.{CapsuleStatus, status_valid}
use falak.Capsule.Lifecycle.{Engine}
use falak.Capsule.Store
use falak.Capsule.Store.{Store, StoreError, Capsule, persist_failed, db_fails}
use falak.Capsule.Manager.{
  Manager, store_failed, poke, set_status, updated, sync_status, receive, emit,
}
use falak.Capsule.Manager.Firing.{status_of}
use falak.Capsule.Manager.Steps.{get-lookup}

-- `store.Update` of a known capsule: written, or refused by the database.
update-written :
    (s : Store) (now : ℕ) (written : Bool) (c old : Capsule)
    → lookup c.id s.capsules ≡ some old
    → db_fails s written ≡ false
    → Store.update s now written c
      ≡ (record s { capsules = insert c.id (record c { updated_at = now }) s.capsules }, none)
unfolding Store.update
update-written s now written c old e f = rw (e, f) refl

update-refused :
    (s : Store) (now : ℕ) (written : Bool) (c old : Capsule)
    → lookup c.id s.capsules ≡ some old
    → db_fails s written ≡ true
    → Store.update s now written c ≡ (s, some persist_failed)
unfolding Store.update
update-refused s now written c old e f = rw (e, f) refl

-- A capsule that is known and whose update the database takes is replaced by what the mesh
-- delivers, its status included, while its state machine stays where it was.
pub receive-stale :
    (engine : Engine) (m : Manager) (now : ℕ) (written : Bool) (c old : Capsule)
    → lookup c.id m.store.capsules ≡ some old
    → db_fails m.store written ≡ false
    → (lookup c.id (receive m now written c).0.store.capsules
        ≡ some (record c { updated_at = now }))
      × (status_of engine (receive m now written c).0 c.id ≡ status_of engine m c.id)
unfolding receive updated emit status_of
receive-stale engine m now written c old e f =
    rw (receive, get-lookup m.store c.id ∙ e, update-written m.store now written c old e f)
      (lookup-insert_self c.id (record c { updated_at = now }) m.store.capsules, refl)

-- A sync of a known capsule of that ID to a valid status that the database refuses returns the
-- database's error, yet leaves the new status in the cache and the state machine where it was.
pub sync_status-refused :
    (engine : Engine) (m : Manager) (now : ℕ) (written : Bool) (status : CapsuleStatus)
    (c : Capsule)
    → lookup c.id m.store.capsules ≡ some c
    → status_valid status ≡ true
    → db_fails m.store written ≡ true
    → ((sync_status m now written c.id status).1 ≡ some (store_failed persist_failed))
      × (lookup c.id (sync_status m now written c.id status).0.store.capsules
          ≡ some (set_status status now c))
      × (status_of engine (sync_status m now written c.id status).0 c.id ≡ status_of engine m c.id)
unfolding sync_status set_status status_of poke
sync_status-refused engine m now written status c e ok f =
    let c' = set_status status now c in
    let self = lookup-insert_self c.id c' m.store.capsules in
    let refused = update-refused (poke m.store c.id c') now written c' c' self f in
    rw (sync_status, ok, get-lookup m.store c.id ∙ e, ap (λ r. r.1) refused, ap (λ r. r.0) refused)
      (refl, self, refl)
