-- ===== src/Core/Body/Server/Laws.antt =====
-- The order of the frames of a request's body (crates/grpc-quic-core/src/body.rs).
use grpc_quic_rs.Common.{ℕ, zero, suc, true, none, some, ok, ready, Display, All, ◌≡◌, refl, arith}
use grpc_quic_rs.Core.Http.{trailers}
use grpc_quic_rs.Core.Body.{RecvStream, FramePoll}
use grpc_quic_rs.Core.Body.Server.{ServerRecvBody, poll_frame, polls}

-- The body has ended: by trailers, or without any.
abbrev pub IsEnd : {H : Type 0} → FramePoll H → Type 0
IsEnd (ready none) = Unit
IsEnd (ready (some (ok (trailers h)))) = Unit
IsEnd _ = ⊥

module _ {S H E : Type 0} ⦃d : Display E⦄ (h3 : RecvStream S H E) where
  -- An ended body stays so, and does not poll its stream any more.
  ended_poll :
      (b : ServerRecvBody S)
      → b.data_done ≡ true
      → b.trailers_done ≡ true
      → poll_frame h3 b ≡ (ready none, b)
  unfolding poll_frame
  ended_poll b no_data no_trailers = ground arith

  ended_polls :
      (arrive : S → S) (n : ℕ) (b : ServerRecvBody S)
      → b.data_done ≡ true
      → b.trailers_done ≡ true
      → All (λ out. out ≡ ready none) (polls h3 arrive n b)
  unfolding polls
  ended_polls arrive zero b no_data no_trailers = tt
  ended_polls arrive (suc n) b no_data no_trailers =
      let b' : ServerRecvBody S = record b { stream = arrive b.stream } in
      rw (ended_poll b' no_data no_trailers) (refl, ended_polls arrive n b' no_data no_trailers)

  end_flags :
      (b : ServerRecvBody S)
      → IsEnd (poll_frame h3 b).0
      → ((poll_frame h3 b).1.data_done ≡ true) × ((poll_frame h3 b).1.trailers_done ≡ true)
  unfolding poll_frame
  end_flags b ended = ground arith

  -- When a poll has ended the body, by trailers or without, every later poll answers that it has
  -- ended, whatever the stream does.
  pub end_is_final :
      (arrive : S → S) (n : ℕ) (b : ServerRecvBody S)
      → IsEnd (poll_frame h3 b).0
      → All (λ out. out ≡ ready none) (polls h3 arrive n (poll_frame h3 b).1)
  end_is_final arrive n b ended =
      let (no_data, no_trailers) = end_flags b ended in
      ended_polls arrive n (poll_frame h3 b).1 no_data no_trailers
