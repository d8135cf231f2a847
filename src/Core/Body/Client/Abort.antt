-- ===== src/Core/Body/Client/Abort.antt =====
-- The handle of the task that sends the request (crates/grpc-quic-core/src/body.rs).
use mathlib.Core.List.{append-nil}
use grpc_quic_rs.Common.{List, [], ◌∷◌, ◌++◌, Display, ◌≡◌, refl, arith, ◌∙◌, ap}
use grpc_quic_rs.Core.Http.{HeaderMap}
use grpc_quic_rs.Core.Body.{RecvStream}
use grpc_quic_rs.Core.Body.Client.{ClientRecvBody, World, poll_frame, aborts, taken}

module _ {S R T E : Type 0} ⦃d : Display E⦄ (m : HeaderMap) (h3 : RecvStream S m.H E) where
  -- A poll aborts nothing and keeps the handle, or aborts the task and gives the handle up.
  aborted_or_kept :
      (w : World S R) (b : ClientRecvBody S R T)
      → (poll_frame m h3 w b).aborted ++ taken (poll_frame m h3 w b).body.abort_handle
        ≡ taken b.abort_handle
  unfolding poll_frame
  aborted_or_kept w b = ground (arith, append-nil (taken b.abort_handle))

  -- Over the life of a body, whatever it is polled for and whenever it is dropped, the task that
  -- sends the request is aborted exactly once, if the body was given its handle.
  pub aborts-taken :
      (ws : List (World S R)) (b : ClientRecvBody S R T) → aborts m h3 ws b ≡ taken b.abort_handle
  unfolding aborts
  aborts-taken [] b = refl
  aborts-taken (w ∷ ws) b =
      let b' : ClientRecvBody S R T = record b { stream = w.arrive b.stream } in
      ap (◌++◌ (poll_frame m h3 w b').aborted) (aborts-taken ws (poll_frame m h3 w b').body)
      ∙ aborted_or_kept w b'
