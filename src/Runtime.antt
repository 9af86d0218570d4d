-- ===== src/Runtime.antt =====
-- The container runtime's handler, runtime/handler.go, and its adapters of node/runtime_handler.go.
pub mod Handler
