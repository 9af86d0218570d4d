-- ===== src/Node/Capsules/Handling.antt =====
-- What node/capsule_handler.go does with the events of the manager, the messages of an orbit, the
-- outcomes of elections and the events of scaling. The events of a call of the manager are taken
-- when the call has ended, the earliest first. Whether a statement of the store and a publication
-- succeed are arguments. `from_spec_list` parses scaling rules, whose numbers are floats;
-- `seconds_of` is that of `Node.Wire.Encode`.
use falak.Prelude.{
  ℕ, Bool, List, [], ◌∷◌, Option, none, some, String, string_eq, ◌==◌, lookup, insert, delete, has,
  is_nil, if◌then◌else◌,
}
use falak.Prelude.Int.{ℤ}
use falak.Capsule.Types.{
  CapsuleStatus, assigned, announced, ScalingAction, scale_up, scale_down, scale_to_zero,
  other_action,
}
use falak.Capsule.Store
use falak.Capsule.Store.{Capsule}
use falak.Capsule.Manager.{
  Manager, ManagerEvent, EventType, capsule_created, capsule_updated, capsule_received,
  capsule_deleted, assign_replica, sync_status, receive, delete_capsule,
}
use falak.Election.Types
use falak.Spec.Records.{ScalingRule}
use falak.Node.Slots.{next_replica_slot}
use falak.Node.Wire.Messages.{CapsuleMessage}
use falak.Node.Wire.Encode.{capsule_to_proto}
use falak.Node.Wire.Decode.{proto_to_capsule}
use falak.Node.Capsules.{
  CapsuleHandler, created, updated, received, announced_to_orbit, withdrawn, election_requested,
  scale_up_needed, scale_down_needed, scaled_to_zero, announcement, withdrawal, priority_scale_up,
  notify, publish_to_orbit, request_initial_elections,
}

-- A message of an orbit that `HandleMessage` accepted.
pub data Payload : Type 0 where
  announced_capsule : Option CapsuleMessage → Payload
  status_update : String → CapsuleStatus → Payload
  withdrawn_capsule : String → Payload

abbrev cluster_of : Option Capsule → String
cluster_of none = ""
cluster_of (some c) = c.cluster_id

module _ {R : Type 0} where
  -- `c` is what the manager has for the capsule.
  pub scale_up_requests : CapsuleHandler R → Option Capsule → CapsuleHandler R
  unfolding notify
  scale_up_requests h none = h
  scale_up_requests h (some c) = notify h (
      election_requested (record {
        capsule_id = c.id;
        replica_id = next_replica_slot c;
        reason = Types.scale_up;
        cluster_path = c.cluster_id;
        previous_node_id = "";
        priority = priority_scale_up;
      }))

  pub on_scale_event : CapsuleHandler R → String → String → ScalingAction → CapsuleHandler R
  unfolding scale_up_requests notify
  on_scale_event h id rule scale_up =
      let c = Store.get h.manager.store id in
      scale_up_requests (notify h (scale_up_needed id rule (cluster_of c))) c
  on_scale_event h id rule scale_down =
      notify h (scale_down_needed id rule (cluster_of (Store.get h.manager.store id)))
  on_scale_event h id rule scale_to_zero =
      notify h (scaled_to_zero id rule (cluster_of (Store.get h.manager.store id)))
  on_scale_event h id rule (other_action s) = h

  pub on_election_won : CapsuleHandler R → ℕ → Bool → String → String → String → CapsuleHandler R
  on_election_won h now written id replica node = record h {
    manager = (assign_replica h.manager now written id replica node).0;
  }

module _ {R : Type 0} (seconds_of : ℤ → ℤ) (from_spec_list : List ScalingRule → Option R) where
  unfoldable pub announce_capsule : CapsuleHandler R → Bool → Capsule → CapsuleHandler R
  unfolding publish_to_orbit notify
  announce_capsule h publishes c =
      let (sent, well) =
        publish_to_orbit h publishes c.cluster_id c.spec.orbit
          (announcement c.cluster_id c.spec.orbit (capsule_to_proto seconds_of c)) in
      if well then notify sent (announced_to_orbit c.id c.cluster_id) else sent

  unfoldable pub withdraw_capsule : CapsuleHandler R → Bool → Capsule → String → CapsuleHandler R
  unfolding publish_to_orbit
  withdraw_capsule h publishes c why =
      (publish_to_orbit h publishes c.cluster_id c.spec.orbit
        (withdrawal c.cluster_id c.spec.orbit c.id why)).0

  unfoldable pub register_scaling : CapsuleHandler R → Capsule → CapsuleHandler R
  register_scaling h c =
      if is_nil c.spec.scaling_rules then h else (elim (from_spec_list c.spec.scaling_rules) [
        | none ↦ h
        | some rules ↦ record h { monitored = insert c.id rules h.monitored }
      ])

  -- The monitor forgets the capsule, and the elections too where they are wired.
  unfoldable pub forget_capsule : CapsuleHandler R → String → CapsuleHandler R
  forget_capsule h id = record h {
    monitored = delete id h.monitored;
    forgotten = if h.has_forgetter then id ∷ h.forgotten else h.forgotten;
  }

  unfoldable pub on_manager_event : CapsuleHandler R → Bool → EventType → Capsule → CapsuleHandler R
  unfolding notify announce_capsule withdraw_capsule register_scaling forget_capsule
      request_initial_elections
  on_manager_event h publishes capsule_created c =
      request_initial_elections
        (announce_capsule (notify h (created c.id c.cluster_id)) publishes c) c
  on_manager_event h publishes capsule_updated c =
      announce_capsule (notify h (updated c.id c.cluster_id)) publishes c
  on_manager_event h publishes capsule_received c =
      request_initial_elections (register_scaling (notify h (received c.id c.cluster_id)) c) c
  on_manager_event h publishes capsule_deleted c =
      forget_capsule
        (withdraw_capsule (notify h (withdrawn c.id c.cluster_id "deleted")) publishes c "deleted")
        c.id
  on_manager_event h publishes _ c = h

  unfoldable pub take_events : CapsuleHandler R → Bool → List ManagerEvent → CapsuleHandler R
  unfolding on_manager_event
  take_events h publishes [] = h
  take_events h publishes (e ∷ es) =
      on_manager_event (take_events h publishes es) publishes e.kind e.capsule

  -- The manager after a call, whose events the handler takes.
  unfoldable pub absorb : CapsuleHandler R → Bool → Manager → CapsuleHandler R
  unfolding take_events
  absorb h publishes m =
      take_events (record h { manager = record m { events = [] } }) publishes m.events

  pub on_election_lost :
      CapsuleHandler R → ℕ → Bool → Bool → Bool → String → String → String → CapsuleHandler R
  unfolding absorb
  on_election_lost h now synced written publishes id replica winner =
      let synced_handler = absorb h publishes (sync_status h.manager now synced id assigned).0 in
      if winner == "" then synced_handler else record synced_handler {
        manager = (assign_replica synced_handler.manager now written id replica winner).0;
      }

  pub on_election_failed : CapsuleHandler R → ℕ → Bool → Bool → String → CapsuleHandler R
  unfolding absorb
  on_election_failed h now synced publishes id =
      absorb h publishes (sync_status h.manager now synced id announced).0

  unfoldable pub take_payload : CapsuleHandler R → ℕ → Bool → Bool → Payload → CapsuleHandler R
  unfolding absorb
  take_payload h now written publishes (announced_capsule m) = elim (proto_to_capsule m) [
    | none ↦ h
    | some c ↦ absorb h publishes (receive h.manager now written c).0
  ]
  take_payload h now written publishes (status_update id status) =
      absorb h publishes (sync_status h.manager now written id status).0
  take_payload h now written publishes (withdrawn_capsule id) =
      absorb h publishes (delete_capsule h.manager now written id).0

  -- `none` is a message that `HandleMessage` refused.
  unfoldable pub on_orbit_message :
      CapsuleHandler R → ℕ → Bool → Bool → String → Option Payload → CapsuleHandler R
  unfolding take_payload
  on_orbit_message h now written publishes cluster none = h
  on_orbit_message h now written publishes cluster (some p) =
      if has (lookup cluster h.orbits) then take_payload h now written publishes p else h
