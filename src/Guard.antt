-- ===== src/Guard.antt =====
-- The guards on incoming traffic: node/internal/ratelimit/limiter.go, node/auth/dedup.go and
-- capsule/orbit/subscription.go.
mod Limiter
pub mod Dedup
mod Tests
