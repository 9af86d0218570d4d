-- ===== src/Capsule/Manager/Runs.antt =====
-- Runs of operations of capsule/manager.go, the cache and the lifecycles in step all along.
use falak.Prelude.{
  ℕ, ◌≡◌, ◌⊎◌, inl, inr, Bool, true, List, [], ◌∷◌, none, some, String, string_eq, lookup,
}
use falak.Capsule.Types.{status_valid}
use falak.Capsule.Lifecycle.{Trigger, Engine}
use falak.Capsule.Store
use falak.Capsule.Store.{Store, StoreError, Capsule, new_store}
use falak.Spec.Records.{CapsuleSpec}
use falak.Capsule.Manager.{Manager, new_manager, assign_replica, update, delete_capsule, receive}
use falak.Capsule.Manager.Firing.{fire, create}
use falak.Capsule.Manager.Agreement.{InStep}
use falak.Capsule.Manager.Steps.{fire-InStep}
use falak.Capsule.Manager.Writes.{
  update-InStep, assign_replica-InStep, delete_capsule-InStep, receive-InStep_new,
  receive-InStep_known, create-InStep,
}

-- The calls of the interface, with what the outside decides: the database's answers and the new ID.
pub data Call : Type 0 where
  created_call : Bool → Bool → String → String → CapsuleSpec → Call
  fired : Bool → String → Trigger → Call
  updated_call : Bool → String → CapsuleSpec → Call
  assigned_call : Bool → String → String → String → Call
  deleted : Bool → String → Call
  received : Bool → Capsule → Call

unfoldable pub step : Engine → Manager → ℕ → Call → Manager
step engine m now (created_call stored announced_written id cluster spec) =
    (create engine m now stored announced_written id cluster spec).0
step engine m now (fired written id t) = (fire engine m now written id t).0
step engine m now (updated_call written id spec) = (update m now written id spec).0
step engine m now (assigned_call written id rid node) = (assign_replica m now written id rid node).0
step engine m now (deleted written id) = (delete_capsule m now written id).0
step engine m now (received written c) = (receive m now written c).0

unfoldable pub run : Engine → Manager → List (ℕ × Call) → Manager
unfolding step
run engine m [] = m
run engine m ((now, call) ∷ calls) = run engine (step engine m now call) calls

-- A capsule from the mesh has a valid status, and is new here or has the status that is cached.
abbrev pub Expected : Manager → Call → Type 0
Expected m (received written c) =
    (status_valid c.status ≡ true)
    × ((lookup c.id m.store.capsules ≡ none)
        ⊎ (old : Capsule) × (lookup c.id m.store.capsules ≡ some old) × (c.status ≡ old.status))
Expected m _ = Unit

unfoldable pub AllExpected : Engine → Manager → List (ℕ × Call) → Type 0
unfolding step
AllExpected engine m [] = Unit
AllExpected engine m ((now, call) ∷ calls) =
    Expected m call × AllExpected engine (step engine m now call) calls

-- One call, whatever the database answers, keeps the cache and the state machines in step when a
-- capsule that the mesh delivers has a valid status and is new or has the status that is cached.
pub step-InStep :
    (engine : Engine) (m : Manager) (now : ℕ) (call : Call)
    → InStep m
    → Expected m call
    → InStep (step engine m now call)
unfolding step
step-InStep engine m now (created_call stored w id cluster spec) v h =
    create-InStep engine m now stored w id cluster spec v
step-InStep engine m now (fired w id t) v h = fire-InStep engine m now w id t v
step-InStep engine m now (updated_call w id spec) v h = update-InStep m now w id spec v
step-InStep engine m now (assigned_call w id rid node) v h =
    assign_replica-InStep m now w id rid node v
step-InStep engine m now (deleted w id) v h = delete_capsule-InStep m now w id v
step-InStep engine m now (received w c) v (ok, inl f) = receive-InStep_new m now w c v f ok
step-InStep engine m now (received w c) v (ok, inr (old, f, st)) =
    receive-InStep_known m now w c old v f st

pub new_manager-InStep : InStep (new_manager new_store)
unfolding new_manager Store.list new_store lookup
new_manager-InStep = record { agree = λ k. tt }
