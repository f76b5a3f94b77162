-- ===== src/Signal.antt =====
-- The signal backend: signal/decode.go, signal/rpc.go and signal/backend.go.
pub mod Types
pub mod Decode
pub mod Backend
pub mod Rpc
pub mod Routing
pub mod Accepted
pub mod Counts
pub mod Responses
