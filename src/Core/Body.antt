-- ===== src/Core/Body.antt =====
-- crates/grpc-quic-core/src/body.rs: the bodies that read an HTTP/3 stream. The stream is a
-- parameter: a state, and what a poll of it answers.
pub mod Peer
pub mod Server
pub mod Client
mod Tests
use grpc_quic_rs.Common.{Bytes, Option, Result, Poll}
use grpc_quic_rs.Core.Http.{Frame}
use grpc_quic_rs.Errors.{CoreError}

-- `poll_recv_data` and `poll_recv_trailers` of h3's `RequestStream`, for its errors `E`. A buffer
-- is the bytes that `copy_to_bytes` takes from it.
pub record RecvStream (S H E : Type 0) : Type 0 where
  pub poll_recv_data : S → Poll (Result (Option Bytes) E) × S
  pub poll_recv_trailers : S → Poll (Result (Option H) E) × S

-- What `poll_frame` returns.
abbrev pub FramePoll : Type 0 → Type 0
FramePoll H = Poll (Option (Result (Frame H) CoreError))
