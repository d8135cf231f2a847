-- ===== src/Core/Body/Client/Order.antt =====
-- The order of the frames of a response's body (crates/grpc-quic-core/src/body.rs).
use grpc_quic_rs.Common.{List, [], ◌∷◌, true, none, some, err, ready, Display, All, ◌≡◌, ◌⊎◌, arith}
use grpc_quic_rs.Core.Http.{HeaderMap}
use grpc_quic_rs.Core.Body.{RecvStream, FramePoll}
use grpc_quic_rs.Core.Body.Client.{ClientRecvBody, World, poll_frame, polls}
use grpc_quic_rs.Core.Body.Server.Laws.{IsEnd}

-- The end once more, or an error: no frame, and nothing to wait for.
abbrev pub IsQuiet : {H : Type 0} → FramePoll H → Type 0
IsQuiet (ready none) = Unit
IsQuiet (ready (some (err e))) = Unit
IsQuiet _ = ⊥

-- Nothing can come from a body any more.
abbrev pub HasEnded : {S R T : Type 0} → ClientRecvBody S R T → Type 0
HasEnded b = (b.is_closed ≡ true) ⊎ ((b.data_done ≡ true) × (b.trailers_done ≡ true))

module _ {S R T E : Type 0} ⦃d : Display E⦄ (m : HeaderMap) (h3 : RecvStream S m.H E) where
  ended_poll :
      (w : World S R) (b : ClientRecvBody S R T)
      → HasEnded b
      → IsQuiet (poll_frame m h3 w b).out × HasEnded (poll_frame m h3 w b).body
  unfolding poll_frame
  ended_poll w b ended = ground arith

  ended_polls :
      (ws : List (World S R)) (b : ClientRecvBody S R T)
      → HasEnded b
      → All IsQuiet (polls m h3 ws b)
  unfolding polls
  ended_polls [] b ended = tt
  ended_polls (w ∷ ws) b ended =
      let b' : ClientRecvBody S R T = record b { stream = w.arrive b.stream } in
      let (quiet, still) = ended_poll w b' ended in
      (quiet, ended_polls ws (poll_frame m h3 w b').body still)

  end_flags :
      (w : World S R) (b : ClientRecvBody S R T)
      → IsEnd (poll_frame m h3 w b).out
      → HasEnded (poll_frame m h3 w b).body
  unfolding poll_frame
  end_flags w b ended = ground arith

  -- When a poll has ended the body, by trailers or without, no later poll gives a frame or has the
  -- caller wait: each answers the end again, or an error of the task that sends the request.
  pub response_end_is_final :
      (w : World S R) (ws : List (World S R)) (b : ClientRecvBody S R T)
      → IsEnd (poll_frame m h3 w b).out
      → All IsQuiet (polls m h3 ws (poll_frame m h3 w b).body)
  response_end_is_final w ws b ended =
      ended_polls ws (poll_frame m h3 w b).body (end_flags w b ended)
