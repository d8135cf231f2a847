-- ===== src/Core/Body/Server/Transcript.antt =====
-- A request's body gives what the peer sends (crates/grpc-quic-core/src/body.rs).
use grpc_quic_rs.Common.{
  suc, List, [], ◌∷◌, Option, none, some, Display, Bytes, ◌≡◌, refl, ap, length, ok, pending, ready,
}
use grpc_quic_rs.Core.Http.{bytes}
use grpc_quic_rs.Core.Body.Peer.{peer_stream, transcript}
use grpc_quic_rs.Core.Body.Server.{new, poll_frame, polls}

module _ {H : Type 0} (E : Type 0) ⦃d : Display E⦄ where
  -- A new body over the stream of a peer gives the peer's chunks in order and unchanged, `pending`
  -- where nothing has arrived, and then the trailers, or the end if there are none: one answer for
  -- each poll.
  pub polls-transcript :
      (chunks : List (Option Bytes)) (last : Option H)
      → polls
          (peer_stream {E = E})
          (λ s. s)
          (suc (length chunks))
          (new (record { chunks = chunks; last = last }))
        ≡ transcript chunks last
  unfolding polls poll_frame peer_stream
  polls-transcript [] none = refl
  polls-transcript [] (some h) = refl
  polls-transcript (none ∷ rest) last = ap (◌∷◌ pending) (polls-transcript rest last)
  polls-transcript (some c ∷ rest) last =
      ap (◌∷◌ (ready (some (ok (bytes c))))) (polls-transcript rest last)
