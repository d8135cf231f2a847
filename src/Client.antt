-- ===== src/Client.antt =====
-- crates/grpc-quic-client.
pub mod Pool
pub mod Timeout
pub mod Retry
pub mod Forward
pub mod Call
pub mod Channel
