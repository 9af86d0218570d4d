-- ===== src/Node/Capsules/Withdrawal.antt =====
-- A withdrawal that reaches a node of node/capsule_handler.go.
use falak.Prelude.{
  ℕ, ◌≡◌, refl, ap, ◌∙◌, Bool, true, List, [], Option, none, some, String, lookup, delete,
  Bool-cases, inl, inr, lookup-delete_self, has, arith, string_eq,
}
use falak.Prelude.Int.{ℤ}
use falak.Capsule.Store
use falak.Capsule.Store.{Capsule, db_fails}
use falak.Capsule.Manager.{Manager, delete_capsule, emit, capsule_deleted}
use falak.Spec.Records.{ScalingRule}
use falak.Node.Capsules.{CapsuleHandler, publish_to_orbit, notify, withdrawn}
use falak.Node.Capsules.Handling.{
  withdrawn_capsule, withdraw_capsule, forget_capsule, on_manager_event, take_events, absorb,
  take_payload, on_orbit_message,
}
use falak.Node.Capsules.Events.{core, absorb-idle}

-- The manager without the capsule.
abbrev without : Manager → String → Manager
without m id = record m {
  store = record m.store { capsules = delete id m.store.capsules };
  lifecycles = delete id m.lifecycles;
}

delete-known :
    (m : Manager) (now : ℕ) (id : String) (c : Capsule)
    → lookup id m.store.capsules ≡ some c
    → (delete_capsule m now true id).0 ≡ emit (without m id) now capsule_deleted c
unfolding delete_capsule Store.get Store.remove
delete-known m now id c g = ground arith

delete-unknown :
    (m : Manager) (now : ℕ) (written : Bool) (id : String)
    → lookup id m.store.capsules ≡ none
    → (delete_capsule m now written id).0 ≡ m
unfolding delete_capsule Store.get
delete-unknown m now written id g = ground arith

module _ {R : Type 0} (seconds_of : ℤ → ℤ) (from_spec_list : List ScalingRule → Option R) where
  -- What the handler is when it has taken the event of the deletion.
  gone : CapsuleHandler R → Bool → String → Capsule → CapsuleHandler R
  gone h publishes id c =
      forget_capsule seconds_of from_spec_list
        (withdraw_capsule seconds_of from_spec_list
          (notify (record h { manager = record (without h.manager id) { events = [] } })
            (withdrawn c.id c.cluster_id "deleted"))
          publishes c "deleted")
        c.id

  message-gone :
      (h : CapsuleHandler R) (now : ℕ) (publishes : Bool) (cluster id : String) (c : Capsule)
      → has (lookup cluster h.orbits) ≡ true
      → lookup id h.manager.store.capsules ≡ some c
      → h.manager.events ≡ []
      → on_orbit_message seconds_of from_spec_list h now true publishes cluster
          (some (withdrawn_capsule id))
        ≡ gone h publishes id c
  unfolding on_orbit_message take_payload absorb take_events on_manager_event emit gone
  message-gone h now publishes cluster id c ready g idle =
      rw (ready, delete-known h.manager now id c g, idle) refl

  core-gone :
      (h : CapsuleHandler R) (publishes : Bool) (id : String) (c : Capsule)
      → core (gone h publishes id c) ≡ (record (without h.manager id) { events = [] }, h.orbits)
  unfolding gone forget_capsule withdraw_capsule notify publish_to_orbit
  core-gone h publishes id c = ground arith

  monitored-gone :
      (h : CapsuleHandler R) (publishes : Bool) (id : String) (c : Capsule)
      → (gone h publishes id c).monitored ≡ delete c.id h.monitored
  unfolding gone forget_capsule withdraw_capsule notify publish_to_orbit
  monitored-gone h publishes id c = ground arith

  unknown-idle :
      (h : CapsuleHandler R) (now : ℕ) (written publishes : Bool) (cluster id : String)
      → lookup id h.manager.store.capsules ≡ none
      → h.manager.events ≡ []
      → on_orbit_message seconds_of from_spec_list h now written publishes cluster
          (some (withdrawn_capsule id))
        ≡ h
  unfolding on_orbit_message take_payload
  unknown-idle h now written publishes cluster id g idle =
      elim (Bool-cases (has (lookup cluster h.orbits))) [
        | inl t ↦
            rw (t, delete-unknown h.manager now written id g)
              (absorb-idle seconds_of from_spec_list h publishes idle)
        | inr t ↦ rw t refl
      ]

  -- When a withdrawal of a known capsule reaches a node of the cluster, and the store can be
  -- written, the node has the capsule no more, nor monitors it; the same withdrawal, heard again at
  -- any later time, then changes nothing.
  pub on_orbit_message-withdrawn :
      (h : CapsuleHandler R) (now later : ℕ) (publishes written : Bool) (cluster id : String)
      (c : Capsule)
      → has (lookup cluster h.orbits) ≡ true
      → lookup id h.manager.store.capsules ≡ some c
      → c.id ≡ id
      → h.manager.events ≡ []
      → let after =
          on_orbit_message seconds_of from_spec_list h now true publishes cluster
            (some (withdrawn_capsule id)) in
        (lookup id after.manager.store.capsules ≡ none)
        × (lookup id after.monitored ≡ none)
        × (on_orbit_message seconds_of from_spec_list after later written publishes cluster
              (some (withdrawn_capsule id))
            ≡ after)
  on_orbit_message-withdrawn h now later publishes written cluster id c ready g own idle =
      let e = core-gone h publishes id c in
      let none_left : lookup id (gone h publishes id c).manager.store.capsules ≡ none =
        ap (λ k. lookup id k.0.store.capsules) e ∙ lookup-delete_self id h.manager.store.capsules in
      rw (message-gone h now publishes cluster id c ready g idle) (
        none_left,
        ap (lookup id) (monitored-gone h publishes id c)
            ∙ (rw own (lookup-delete_self id h.monitored)),
        unknown-idle (gone h publishes id c) later written publishes cluster id none_left
            (ap (λ k. k.0.events) e),
      )
