-- ===== src/Core.antt =====
-- crates/grpc-quic-core.
pub mod Http
pub mod Wire
pub mod Body
pub mod Session
