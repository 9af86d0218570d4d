-- ===== src/Capsule/Lifecycle.antt =====
-- capsule/lifecycle.go. The state machine library (github.com/qmuntal/stateless) is a parameter,
-- `Engine`; the transitions that `buildMachine` configures are `permits`.
pub mod Trace
pub mod Transitions
pub mod Table
mod Tests
use falak.Prelude.{Bool, true, false, Option, none, some, ◌≡◌, String, if◌then◌else◌, has}
use falak.Capsule.Types.{
  CapsuleStatus, created, announced, electing, assigned, executing, running, stopping, stopped,
  unknown, status_valid,
}

pub data Trigger : Type 0 where
  announce election_started election_won election_timeout execution_started execution_failed
        container_ready :
      Trigger
  stop_requested container_stopped node_failed scale_up_needed scale_down_needed : Trigger
  other_trigger : String → Trigger

-- The `Permit` calls of `buildMachine`.
unfoldable pub permits : CapsuleStatus → Trigger → Option CapsuleStatus
permits created announce = some announced
permits announced election_started = some electing
permits electing election_won = some assigned
permits electing election_timeout = some announced
permits assigned execution_started = some executing
permits assigned execution_failed = some announced
permits executing container_ready = some running
permits executing execution_failed = some announced
permits running stop_requested = some stopping
permits running node_failed = some announced
permits running scale_up_needed = some announced
permits running scale_down_needed = some stopping
permits stopping container_stopped = some stopped
permits stopped announce = some announced
permits _ _ = none

abbrev pub Permits : Type 0
Permits = CapsuleStatus → Trigger → Option CapsuleStatus

-- What `stateless` does with a configured machine: `Fire` moves to the permitted destination and
-- fails where none is permitted, and `CanFire` says which of the two it would be.
pub record Engine : Type 0 where
  pub fire_machine : Permits → CapsuleStatus → Trigger → Option CapsuleStatus
  pub can_fire_machine : Permits → CapsuleStatus → Trigger → Bool
  pub fire_permitted :
      (p : Permits) (s : CapsuleStatus) (t : Trigger) (d : CapsuleStatus)
      → p s t ≡ some d
      → fire_machine p s t ≡ some d
  pub fire_refused :
      (p : Permits) (s : CapsuleStatus) (t : Trigger) → p s t ≡ none → fire_machine p s t ≡ none
  pub can_fire_lem :
      (p : Permits) (s : CapsuleStatus) (t : Trigger) → can_fire_machine p s t ≡ has (p s t)

pub record LifecycleEvent : Type 0 where
  pub capsule_id : String
  pub from : CapsuleStatus
  pub to : CapsuleStatus
  pub trigger : Trigger

-- `machine` is the state of the state machine.
pub record Lifecycle : Type 0 where
  pub capsule_id : String
  pub machine : CapsuleStatus
  pub last_trigger : Trigger
  pub prev_state : CapsuleStatus

-- `NewLifecycle` with the option `WithLifecycleInitialState(initial)`. The empty string is not a
-- valid status.
unfoldable pub new_lifecycle : String → CapsuleStatus → Lifecycle
new_lifecycle id initial = record {
  capsule_id = id;
  machine = if status_valid initial then initial else created;
  last_trigger = other_trigger "";
  prev_state = initial;
}

unfoldable pub state : Lifecycle → CapsuleStatus
state l = l.machine

-- What `Fire` records before it drives the machine.
abbrev pub record_attempt : Lifecycle → Trigger → Lifecycle
record_attempt l t = record l { prev_state = l.machine; last_trigger = t }

module _ (engine : Engine) where
  -- The event that `onEntry` hands to the handler, or `none` for the error.
  unfoldable pub entered : Lifecycle → Option CapsuleStatus → Lifecycle × Option LifecycleEvent
  entered l none = (l, none)
  entered l (some d) = (
    record l { machine = d },
    some (record {
      capsule_id = l.capsule_id;
      from = l.prev_state;
      to = d;
      trigger = l.last_trigger;
    }),
  )

  unfoldable pub fire : Lifecycle → Trigger → Lifecycle × Option LifecycleEvent
  unfolding entered
  fire l t = entered (record_attempt l t) (engine.fire_machine permits l.machine t)

  unfoldable pub can_fire : Lifecycle → Trigger → Bool
  can_fire l t = engine.can_fire_machine permits l.machine t
