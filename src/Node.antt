-- ===== src/Node.antt =====
-- The handlers of a node, node/: the capsules that it shares with the mesh.
pub mod Slots
pub mod Wire
pub mod Capsules
mod Tests
