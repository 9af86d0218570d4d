-- ===== src/Shared.antt =====
-- shared/retry.go and shared/paths.go.
pub mod Retry
pub mod Paths
