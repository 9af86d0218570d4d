-- ===== src/Health.antt =====
-- The failure detector of a node, node/health: scores, and the protocol that probes for them.
pub mod Score
pub mod Monitor
