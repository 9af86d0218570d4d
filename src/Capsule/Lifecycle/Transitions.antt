-- ===== src/Capsule/Lifecycle/Transitions.antt =====
-- One call of `Fire` of capsule/lifecycle.go.
use falak.Prelude.{Option, none, some, ◌≡◌, refl, has, Option-cases, inl, inr}
use falak.Capsule.Types.{CapsuleStatus}
use falak.Capsule.Lifecycle.{
  Trigger, permits, Engine, LifecycleEvent, Lifecycle, record_attempt, fire, can_fire,
}

module _ (engine : Engine) (l : Lifecycle) (t : Trigger) where
  pub fire_moves :
      {d : CapsuleStatus}
      → permits l.machine t ≡ some d
      → fire engine l t ≡ (
        record (record_attempt l t) { machine = d },
        some (record { capsule_id = l.capsule_id; from = l.machine; to = d; trigger = t }),
      )
  unfolding fire
  fire_moves {d} h = rw (engine.fire_permitted permits l.machine t d h)

  pub fire_stays : permits l.machine t ≡ none → fire engine l t ≡ (record_attempt l t, none)
  unfolding fire
  fire_stays h = rw (engine.fire_refused permits l.machine t h)

  -- The machine after the call, whatever came of it.
  abbrev pub destination : Option CapsuleStatus → CapsuleStatus
  destination none = l.machine
  destination (some d) = d

  pub machine-fire : (fire engine l t).0.machine ≡ destination (permits l.machine t)
  machine-fire = elim (Option-cases (permits l.machine t)) [
    | inl h ↦ rw (fire_stays h, h)
    | inr (d, h) ↦ rw (fire_moves h, h)
  ]

  -- The event of a move to `d`, if there is one.
  abbrev pub move_event : Option CapsuleStatus → Option LifecycleEvent
  move_event none = none
  move_event (some d) =
      some (record { capsule_id = l.capsule_id; from = l.machine; to = d; trigger = t })

  -- `CanFire` foretells whether `Fire` succeeds; a call moves the machine to the state that the
  -- transition table gives for its state and the trigger, reporting the move from the old state
  -- under that trigger, and where the table gives none it leaves the machine and reports nothing.
  pub can_fire-fire :
      (can_fire engine l t ≡ has (fire engine l t).1)
      × ((fire engine l t).0.machine ≡ destination (permits l.machine t))
      × ((fire engine l t).1 ≡ move_event (permits l.machine t))
  unfolding can_fire
  can_fire-fire = elim (Option-cases (permits l.machine t)) [
    | inl h ↦ rw (engine.can_fire_lem permits l.machine t, h, fire_stays h) (refl, refl, refl)
    | inr (d, h) ↦ rw (engine.can_fire_lem permits l.machine t, h, fire_moves h) (refl, refl, refl)
  ]
