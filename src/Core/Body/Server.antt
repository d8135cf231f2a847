-- ===== src/Core/Body/Server.antt =====
-- `ServerRecvBody` of crates/grpc-quic-core/src/body.rs: the body of a request.
pub mod Laws
pub mod Transcript
use grpc_quic_rs.Common.{
  ℕ, zero, suc, List, [], ◌∷◌, Bool, true, false, Option, none, some, Result, ok, err, Poll,
  pending, ready, Display, Bytes,
}
use grpc_quic_rs.Core.Http.{Frame, bytes, trailers}
use grpc_quic_rs.Core.Body.{RecvStream, FramePoll}
use grpc_quic_rs.Errors.{core_error_from_stream}

pub record ServerRecvBody (S : Type 0) : Type 0 where
  pub stream : S
  pub data_done : Bool
  pub trailers_done : Bool

-- `ServerRecvBody::new`
abbrev pub new : {S : Type 0} → S → ServerRecvBody S
new stream = record { stream = stream; data_done = false; trailers_done = false }

module _ {S H E : Type 0} ⦃d : Display E⦄ (h3 : RecvStream S H E) where
  -- The `match` on `poll_recv_trailers`.
  on_trailers : ServerRecvBody S → Poll (Result (Option H) E) × S → FramePoll H × ServerRecvBody S
  on_trailers this (ready (ok (some h)), s) =
      (ready (some (ok (trailers h))), record this { stream = s; trailers_done = true })
  on_trailers this (ready (ok none), s) =
      (ready none, record this { stream = s; trailers_done = true })
  on_trailers this (ready (err e), s) = (
    ready (some (err (core_error_from_stream e))),
    record this { stream = s; trailers_done = true },
  )
  on_trailers this (pending, s) = (pending, record this { stream = s })

  -- From `if !this.trailers_done` on.
  poll_trailers : ServerRecvBody S → FramePoll H × ServerRecvBody S
  unfolding on_trailers
  poll_trailers this = elim this.trailers_done [
    | false ↦ on_trailers this (h3.poll_recv_trailers this.stream)
    | true ↦ (ready none, this)
  ]

  -- The `match` on `poll_recv_data`, which falls through at the end of the data.
  on_data : ServerRecvBody S → Poll (Result (Option Bytes) E) × S → FramePoll H × ServerRecvBody S
  unfolding poll_trailers
  on_data this (ready (ok (some buf)), s) =
      (ready (some (ok (bytes buf))), record this { stream = s })
  on_data this (ready (ok none), s) = poll_trailers (record this { stream = s; data_done = true })
  on_data this (ready (err e), s) =
      (ready (some (err (core_error_from_stream e))), record this { stream = s })
  on_data this (pending, s) = (pending, record this { stream = s })

  unfoldable pub poll_frame : ServerRecvBody S → FramePoll H × ServerRecvBody S
  unfolding on_data
  poll_frame this = elim this.data_done [
    | false ↦ on_data this (h3.poll_recv_data this.stream)
    | true ↦ poll_trailers this
  ]

  -- The outputs of `n` polls. Between two polls the peer changes the stream by `arrive`.
  unfoldable pub polls : (S → S) → ℕ → ServerRecvBody S → List (FramePoll H)
  polls arrive zero this = []
  polls arrive (suc n) this =
      let (out, next) = poll_frame (record this { stream = arrive this.stream }) in
      out ∷ polls arrive n next
