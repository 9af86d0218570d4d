-- ===== src/Spec.antt =====
-- capsule/spec.go and the specification records of capsule/capsule.go. Signed integers are ℤ, a
-- duration is its nanoseconds, and a nil map is the empty one (no reader tells them apart).
pub mod Records
pub mod Defaults
pub mod Validation
pub mod Samples
mod Tests
