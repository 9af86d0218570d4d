-- ===== src/Node/Capsules/Events.antt =====
-- What the events of the manager leave alone in a handler of node/capsule_handler.go.
use falak.Prelude.{◌≡◌, refl, sym, ap, ◌∙◌, Bool, List, [], ◌∷◌, Option, String, Map, arith}
use falak.Prelude.Int.{ℤ}
use falak.Capsule.Store.{Capsule}
use falak.Capsule.Manager.{
  Manager, ManagerEvent, EventType, capsule_created, capsule_updated, capsule_received,
  capsule_deleted, capsule_announced, capsule_running, capsule_stopping, capsule_stopped,
  capsule_status_changed,
}
use falak.Spec.Records.{ScalingRule}
use falak.Node.Capsules.{
  CapsuleHandler, OrbitMessage, publish_to_orbit, notify, request_initial_elections,
}
use falak.Node.Capsules.Handling.{
  announce_capsule, withdraw_capsule, register_scaling, forget_capsule, on_manager_event,
  take_events, absorb,
}

module _ {R : Type 0} where
  -- The manager and the clusters that are set up.
  abbrev pub core : CapsuleHandler R → Manager × Map String (List String)
  core h = (h.manager, h.orbits)

  pub core-publish_to_orbit :
      (h : CapsuleHandler R) (publishes : Bool) (cluster orbit : String) (message : OrbitMessage)
      → core (publish_to_orbit h publishes cluster orbit message).0 ≡ core h
  unfolding publish_to_orbit
  core-publish_to_orbit h publishes cluster orbit message = ground arith

  core-request_initial_elections :
      (h : CapsuleHandler R) (c : Capsule) → core (request_initial_elections h c) ≡ core h
  unfolding request_initial_elections
  core-request_initial_elections h c = ground arith

module _ {R : Type 0} (seconds_of : ℤ → ℤ) (from_spec_list : List ScalingRule → Option R) where
  core-announce_capsule :
      (h : CapsuleHandler R) (publishes : Bool) (c : Capsule)
      → core (announce_capsule seconds_of from_spec_list h publishes c) ≡ core h
  unfolding announce_capsule notify publish_to_orbit
  core-announce_capsule h publishes c = ground arith

  core-register_scaling :
      (h : CapsuleHandler R) (c : Capsule)
      → core (register_scaling seconds_of from_spec_list h c) ≡ core h
  unfolding register_scaling
  core-register_scaling h c = ground arith

  pub core-on_manager_event :
      (h : CapsuleHandler R) (publishes : Bool) (kind : EventType) (c : Capsule)
      → core (on_manager_event seconds_of from_spec_list h publishes kind c) ≡ core h
  unfolding on_manager_event notify forget_capsule withdraw_capsule
  core-on_manager_event h publishes capsule_created c =
      core-request_initial_elections _ c ∙ core-announce_capsule _ publishes c
  core-on_manager_event h publishes capsule_updated c = core-announce_capsule _ publishes c
  core-on_manager_event h publishes capsule_received c =
      core-request_initial_elections _ c ∙ core-register_scaling _ c
  core-on_manager_event h publishes capsule_deleted c =
      core-publish_to_orbit _ publishes c.cluster_id c.spec.orbit _
  core-on_manager_event h publishes capsule_announced c = refl
  core-on_manager_event h publishes capsule_running c = refl
  core-on_manager_event h publishes capsule_stopping c = refl
  core-on_manager_event h publishes capsule_stopped c = refl
  core-on_manager_event h publishes capsule_status_changed c = refl

  core-take_events :
      (h : CapsuleHandler R) (publishes : Bool) (es : List ManagerEvent)
      → core (take_events seconds_of from_spec_list h publishes es) ≡ core h
  unfolding take_events
  core-take_events h publishes [] = refl
  core-take_events h publishes (e ∷ es) =
      core-on_manager_event _ publishes e.kind e.capsule ∙ core-take_events h publishes es

  -- The manager keeps what its call left, less the events.
  pub core-absorb :
      (h : CapsuleHandler R) (publishes : Bool) (m : Manager)
      → core (absorb seconds_of from_spec_list h publishes m) ≡ (record m { events = [] }, h.orbits)
  unfolding absorb
  core-absorb h publishes m = core-take_events _ publishes m.events

  -- A call that changed nothing and had no events is not noticed.
  pub absorb-idle :
      (h : CapsuleHandler R) (publishes : Bool)
      → h.manager.events ≡ []
      → absorb seconds_of from_spec_list h publishes h.manager ≡ h
  unfolding absorb take_events
  absorb-idle h publishes e =
      ap
        (λ es.
          take_events seconds_of from_spec_list
            (record h { manager = record h.manager { events = [] } }) publishes es)
        e
      ∙ ap (λ es. record h { manager = record h.manager { events = es } }) (sym e)
