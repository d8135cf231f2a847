-- ===== src/Examples.antt =====
-- examples: the streaming service and its client.
pub mod Service
pub mod Client
pub mod Server
