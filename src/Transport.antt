-- ===== src/Transport.antt =====
-- crates/grpc-quic-transport.
pub mod Tls
pub mod Verifier
pub mod Endpoint
pub mod Connection
