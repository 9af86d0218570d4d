-- ===== src/Capsule/Manager/Steps.antt =====
-- Each operation of capsule/manager.go keeps the cache and the lifecycles in step.
use falak.Prelude.{
  ℕ, ◌≡◌, refl, ◌∙◌, sym, ap, subst, ◌⊎◌, inl, inr, Bool, true, Option, none, some, String, Map,
  lookup, insert, lookup-insert_self, string_eq, arith, Option-cases,
}
use falak.Capsule.Types.{CapsuleStatus, status_valid}
use falak.Capsule.Lifecycle.{
  Trigger, announce, permits, Engine, LifecycleEvent, Lifecycle, new_lifecycle, record_attempt,
}
use falak.Capsule.Lifecycle
use falak.Capsule.Lifecycle.Transitions.{fire_moves, fire_stays}
use falak.Capsule.Store
use falak.Capsule.Store.{Store, StoreError, Capsule, db_fails}
use falak.Capsule.Manager.{
  EventType, Manager, poke, set_status, updated, status_event_type, on_lifecycle_transition,
}
use falak.Capsule.Manager.Firing.{after_fire, fire}
use falak.Capsule.Manager.Agreement.{
  Agree, AgreeOn, InStep, Agree-insert, Agree-capsule, Agree-lifecycle, capsule_of,
}

-- The cache after `store.Update`.
update-cases :
    (s : Store) (now : ℕ) (written : Bool) (c : Capsule)
    → ((Store.update s now written c).0 ≡ s)
      ⊎ ((Store.update s now written c).0
          ≡ record s { capsules = insert c.id (record c { updated_at = now }) s.capsules })
unfolding Store.update
update-cases s now written c = ground arith

pub agree-update :
    (s : Store) (ls : Map String Lifecycle) (now : ℕ) (written : Bool) (c old : Capsule)
    → AgreeOn s.capsules ls
    → lookup c.id s.capsules ≡ some old
    → c.id ≡ old.id
    → c.status ≡ old.status
    → AgreeOn (Store.update s now written c).0.capsules ls
agree-update s ls now written c old h e i st = elim (update-cases s now written c) [
  | inl same ↦ rw same h
  | inr new ↦ rw new (Agree-capsule s.capsules ls c.id old (record c { updated_at = now }) h e i st)
]

-- A cached capsule is written over and then updated.
pub agree-poke :
    (s : Store) (ls : Map String Lifecycle) (id : String) (now : ℕ) (written : Bool) (c : Capsule)
    → c.id ≡ id
    → AgreeOn (insert id c s.capsules) ls
    → AgreeOn (Store.update (poke s id c) now written c).0.capsules ls
unfolding poke
agree-poke s ls id now written c i h =
    agree-update (poke s id c) ls now written c c h
      (ap (λ j. lookup j (insert id c s.capsules)) i ∙ lookup-insert_self id c s.capsules) refl refl

updated-parts :
    (m : Manager) (now : ℕ) (kind : EventType) (c : Capsule) (r : Store × Option StoreError)
    → ((updated m now kind c r).0.store ≡ r.0)
      × ((updated m now kind c r).0.lifecycles ≡ m.lifecycles)
unfolding updated
updated-parts m now kind c (s, none) = (refl, refl)
updated-parts m now kind c (s, some e) = (refl, refl)

pub agree-updated :
    (m : Manager) (now : ℕ) (kind : EventType) (c : Capsule) (r : Store × Option StoreError)
    → AgreeOn r.0.capsules m.lifecycles
    → InStep (updated m now kind c r).0
agree-updated m now kind c r h =
    let (p, q) = updated-parts m now kind c r in record { agree = rw (p, q) h }

permits-valid :
    (s : CapsuleStatus) (t : Trigger) (d : CapsuleStatus)
    → permits s t ≡ some d
    → status_valid d ≡ true
unfolding permits status_valid
permits-valid s t d h = ground arith

pub get-lookup : (s : Store) (id : String) → Store.get s id ≡ lookup id s.capsules
unfolding Store.get
get-lookup s id = refl

-- A transition reported for a capsule whose lifecycle has made it.
transition-InStep :
    (m : Manager) (now : ℕ) (written : Bool) (c : Capsule) (l : Lifecycle) (event : LifecycleEvent)
    → InStep m
    → lookup event.capsule_id m.store.capsules ≡ some c
    → Agree event.capsule_id (some (set_status event.to now c)) (some l)
    → InStep (
        on_lifecycle_transition
          (record m { lifecycles = insert event.capsule_id l m.lifecycles })
          now
          written
          event)
unfolding on_lifecycle_transition
transition-InStep m now written c l event v e a =
    let c' = set_status event.to now c in
    rw (get-lookup m.store event.capsule_id ∙ e, on_lifecycle_transition)
      (agree-updated (record m { lifecycles = insert event.capsule_id l m.lifecycles }) now
        (status_event_type event.to) c'
        (Store.update (poke m.store event.capsule_id c') now written c')
        (agree-poke m.store (insert event.capsule_id l m.lifecycles) event.capsule_id now written c'
          a.0 (Agree-insert m.store.capsules m.lifecycles event.capsule_id c' l v.agree a)))

fire-InStep_found :
    (engine : Engine) (m : Manager) (now : ℕ) (written : Bool) (id : String) (t : Trigger)
    (l : Lifecycle)
    → InStep m
    → lookup id m.lifecycles ≡ some l
    → InStep (after_fire engine m now written id (Lifecycle.fire engine l t)).0
unfolding after_fire
fire-InStep_found engine m now written id t l v e = elim (Option-cases (permits l.machine t)) [
  | inl h ↦ rw (fire_stays engine l t h) (record {
    agree =
        Agree-lifecycle m.store.capsules m.lifecycles id l (record_attempt l t) v.agree e refl refl;
  })
  | inr (d, h) ↦ rw (fire_moves engine l t h) (
      moved d (permits-valid l.machine t d h)
        (capsule_of m.store.capsules m.lifecycles id l v.agree e))
]
  where
    moved :
        (d : CapsuleStatus)
        → status_valid d ≡ true
        → (c : Capsule) × (lookup id m.store.capsules ≡ some c) × Agree id (some c) (some l)
        → InStep (
            on_lifecycle_transition
              (record m {
                lifecycles = insert id (record (record_attempt l t) { machine = d }) m.lifecycles;
              })
              now
              written
              (record { capsule_id = l.capsule_id; from = l.machine; to = d; trigger = t }))
    moved d ok (c, f, (p, q, r, w)) =
        subst
          (λ k. InStep (
            on_lifecycle_transition
              (record m {
                lifecycles = insert k (record (record_attempt l t) { machine = d }) m.lifecycles;
              })
              now written
              (record { capsule_id = l.capsule_id; from = l.machine; to = d; trigger = t })))
          q
          (transition-InStep m now written c (record (record_attempt l t) { machine = d })
            (record { capsule_id = l.capsule_id; from = l.machine; to = d; trigger = t }) v
            (ap (λ k. lookup k m.store.capsules) q ∙ f)
            (unfold set_status in (p ∙ sym q, refl, refl, ok)))

-- Firing a trigger, permitted or not, known capsule or not, database failing or not, keeps the
-- cache and the state machines in step.
pub fire-InStep :
    (engine : Engine) (m : Manager) (now : ℕ) (written : Bool) (id : String) (t : Trigger)
    → InStep m
    → InStep (fire engine m now written id t).0
unfolding fire
fire-InStep engine m now written id t v = elim (Option-cases (lookup id m.lifecycles)) [
  | inl e ↦ rw (e, fire) v
  | inr (l, e) ↦ rw (e, fire) (fire-InStep_found engine m now written id t l v e)
]
