-- ===== src/Capsule/Manager.antt =====
-- capsule/manager.go: the manager's state and the operations that do not fire the state machine. A
-- call takes the time `now` and, for each of its database statements, whether it succeeds. The
-- events that the handler gets are kept, the latest first. Capsules are pointers in the source: a
-- change of one that `Get` returned is in the cache before `store.Update` is called (`poke`).
pub mod Firing
pub mod Agreement
pub mod Steps
pub mod Writes
pub mod Runs
mod Mesh
mod Tests
use falak.Prelude.{
  ℕ, Bool, true, false, not, List, [], ◌∷◌, ◌++◌, Option, none, some, String, Map, lookup, insert,
  delete, has, is_nil, ◌==◌, string_eq, if◌then◌else◌,
}
use falak.Prelude.Int.{ℤ}
use falak.Capsule.Types.{
  CapsuleStatus, created, announced, assigned, running, stopping, stopped, status_valid,
}
use falak.Capsule.Lifecycle.{
  Trigger, announce, election_started, election_won, election_timeout, execution_started,
  execution_failed, container_ready, stop_requested, container_stopped, node_failed,
  scale_up_needed, scale_down_needed, Engine, LifecycleEvent, Lifecycle, new_lifecycle,
}
use falak.Capsule.Lifecycle
use falak.Capsule.Store
use falak.Capsule.Store.{Store, StoreError, Capsule, ReplicaState}
use falak.Spec.Records.{CapsuleSpec}
use falak.Spec.Defaults.{default_spec}
use falak.Spec.Validation.{SpecError, validate_spec}

pub data EventType : Type 0 where
  capsule_created capsule_updated capsule_deleted capsule_received capsule_announced : EventType
  capsule_running capsule_stopping capsule_stopped capsule_status_changed : EventType

pub record ManagerEvent : Type 0 where
  pub kind : EventType
  pub capsule_id : String
  pub capsule : Capsule
  pub timestamp : ℕ

pub record Manager : Type 0 where
  pub store : Store
  pub lifecycles : Map String Lifecycle
  pub events : List ManagerEvent

pub data ManagerError : Type 0 where
  cluster_id_required capsule_not_found transition_failed invalid_status : ManagerError
  invalid_spec : List SpecError → ManagerError
  store_failed : StoreError → ManagerError

-- The lifecycles of the capsules that the store already holds.
pub restore : Map String Lifecycle → List Capsule → Map String Lifecycle
restore lcs [] = lcs
restore lcs (c ∷ cs) = restore (insert c.id (new_lifecycle c.id c.status) lcs) cs

pub new_manager : Store → Manager
unfolding restore
new_manager s = record { store = s; lifecycles = restore [] (Store.list s); events = [] }

pub status_event_type : CapsuleStatus → EventType
status_event_type announced = capsule_announced
status_event_type running = capsule_running
status_event_type stopping = capsule_stopping
status_event_type stopped = capsule_stopped
status_event_type _ = capsule_status_changed

unfoldable pub emit : Manager → ℕ → EventType → Capsule → Manager
emit m now kind c = record m {
  events = record { kind = kind; capsule_id = c.id; capsule = c; timestamp = now } ∷ m.events;
}

-- A change of the capsule that the cache holds under `id`.
pub poke : Store → String → Capsule → Store
poke s id c = record s { capsules = insert id c s.capsules }

-- `if err := store.…; err != nil { return err }`.
abbrev pub store_result : Option StoreError → Option ManagerError
store_result none = none
store_result (some e) = some (store_failed e)

pub set_status : CapsuleStatus → ℕ → Capsule → Capsule
set_status status now c = record c { status = status; updated_at = now }

-- What follows `store.Update`: the event on success, nothing on an error.
pub updated :
    Manager → ℕ → EventType → Capsule → Store × Option StoreError → Manager × Option ManagerError
unfolding emit
updated m now kind c (s, none) = (emit (record m { store = s }) now kind c, none)
updated m now kind c (s, some e) = (record m { store = s }, some (store_failed e))

pub on_lifecycle_transition : Manager → ℕ → Bool → LifecycleEvent → Manager
unfolding set_status poke updated
on_lifecycle_transition m now written event = elim (Store.get m.store event.capsule_id) [
  | none ↦ m
  | some c ↦
      let c' = set_status event.to now c in
      (updated m now (status_event_type event.to) c'
        (Store.update (poke m.store event.capsule_id c') now written c')).0
]

-- The loop of `AssignReplica`: the first slot of the replica, or a new one at the end.
pub assign_slot : List ReplicaState → String → String → ℕ → List ReplicaState
assign_slot [] rid node now =
    record { replica_id = rid; node_id = node; status = assigned; started_at = now } ∷ []
assign_slot (r ∷ rs) rid node now =
    if r.replica_id == rid
    then record r { node_id = node; status = assigned; started_at = now } ∷ rs
    else r ∷ assign_slot rs rid node now

pub assign_replica : Manager → ℕ → Bool → String → String → String → Manager × Option ManagerError
unfolding assign_slot poke
assign_replica m now written id rid node = elim (Store.get m.store id) [
  | none ↦ (m, some capsule_not_found)
  | some c ↦
      let c' = record c { replicas = assign_slot c.replicas rid node now; updated_at = now } in
      let (s, e) = Store.update (poke m.store id c') now written c' in
      (record m { store = s }, store_result e)
]

pub sync_status : Manager → ℕ → Bool → String → CapsuleStatus → Manager × Option ManagerError
unfolding set_status poke emit
sync_status m now written id status =
    if not (status_valid status) then (m, some invalid_status) else elim (Store.get m.store id) [
      | none ↦ (m, some capsule_not_found)
      | some c ↦
          let c' = set_status status now c in
          let (s, e) = Store.update (poke m.store id c') now written c' in
          elim e [
            | some err ↦ (record m { store = s }, some (store_failed err))
            | none ↦ (
              emit
                  (record m {
                    store = s;
                    lifecycles = insert id (new_lifecycle id status) m.lifecycles;
                  })
                  now (status_event_type status) c',
              none,
            )
          ]
    ]

pub update : Manager → ℕ → Bool → String → CapsuleSpec → Manager × Option ManagerError
unfolding poke updated
update m now written id spec =
    let spec' = default_spec spec in
    let errors = validate_spec spec' in
    if not (is_nil errors) then (m, some (invalid_spec errors)) else elim (Store.get m.store id) [
      | none ↦ (m, some capsule_not_found)
      | some c ↦
          let c' = record c { spec = spec'; updated_at = now } in
          updated m now capsule_updated c' (Store.update (poke m.store id c') now written c')
    ]

unfoldable pub delete_capsule : Manager → ℕ → Bool → String → Manager × Option ManagerError
unfolding emit
delete_capsule m now written id = elim (Store.get m.store id) [
  | none ↦ (m, some capsule_not_found)
  | some c ↦
      let (s, e) = Store.remove m.store written id in
      elim e [
        | some err ↦ (record m { store = s }, some (store_failed err))
        | none ↦ (
          emit (record m { store = s; lifecycles = delete id m.lifecycles }) now capsule_deleted c,
          none,
        )
      ]
]

-- A new capsule from the mesh gets a lifecycle; one that is known does not.
unfoldable pub received_new : Manager → ℕ → Capsule → Store → Manager
unfolding emit
received_new m now c s =
    let initial = if status_valid c.status then c.status else announced in
    emit
      (record m { store = s; lifecycles = insert c.id (new_lifecycle c.id initial) m.lifecycles })
      now capsule_received c

unfoldable pub receive : Manager → ℕ → Bool → Capsule → Manager × Option ManagerError
unfolding updated received_new
receive m now written c = elim (Store.get m.store c.id) [
  | some existing ↦
      let c' = record c { updated_at = now } in
      updated m now capsule_received c' (Store.update m.store now written c)
  | none ↦
      let (s, e) = Store.create m.store now written c in
      elim e [
        | some err ↦ (record m { store = s }, some (store_failed err))
        | none ↦ (received_new m now (record c { created_at = now; updated_at = now }) s, none)
      ]
]
