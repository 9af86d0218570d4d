-- ===== src/Node/Capsules/Reception.antt =====
-- A capsule that is announced to a node of node/capsule_handler.go.
use falak.Prelude.{ℕ, List, [], Option, insert, string_eq}
use falak.Prelude.Int.{ℤ}
use falak.Capsule.Store
use falak.Capsule.Store.{Capsule}
use falak.Capsule.Manager.{Manager, received_new}
use falak.Spec.Records.{ScalingRule}
use falak.Node.Wire.RoundTrip.{carried}
use falak.Node.Capsules.{CapsuleHandler}

-- The capsule as the store of the receiver has it.
abbrev pub stored : Capsule → ℕ → Capsule
stored c now = record (carried c) { created_at = now; updated_at = now }

module _ {R : Type 0} (seconds_of : ℤ → ℤ) (from_spec_list : List ScalingRule → Option R) where
  -- The handler when the manager has taken the capsule.
  holding : CapsuleHandler R → ℕ → Capsule → CapsuleHandler R
  holding h now c = record h {
    manager =
        record (received_new h.manager now c
          (record h.manager.store { capsules = insert c.id c h.manager.store.capsules })) {
            events = [];
          };
  }
