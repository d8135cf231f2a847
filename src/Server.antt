-- ===== src/Server.antt =====
-- crates/grpc-quic-server.
pub mod Acceptor
pub mod Builder
pub mod Serve
