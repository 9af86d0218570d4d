-- ===== src/Capsule.antt =====
-- The capsule package: capsule/capsule.go, lifecycle.go, labels.go, spec.go, store.go, manager.go.
pub mod Types
pub mod Lifecycle
pub mod Labels
pub mod Store
pub mod Manager
pub mod Samples
