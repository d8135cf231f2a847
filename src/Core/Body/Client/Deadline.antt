-- ===== src/Core/Body/Client/Deadline.antt =====
-- The deadline of a response's body (crates/grpc-quic-core/src/body.rs).
use grpc_quic_rs.Common.{
  ℕ, List, [], ◌∷◌, true, false, none, some, ok, pending, ready, Display, codes, ◌≡◌, ◌∙◌,
}
use grpc_quic_rs.Core.Http.{HeaderMap, header_name, bytes}
use grpc_quic_rs.Core.Body.{RecvStream, FramePoll}
use grpc_quic_rs.Core.Body.Client.{ClientRecvBody, World, poll_in, deadline_trailers}

-- Neither the end of the body, nor an error: a chunk, or nothing yet.
abbrev pub IsOngoing : {H : Type 0} → FramePoll H → Type 0
IsOngoing (ready (some (ok (bytes b)))) = Unit
IsOngoing pending = Unit
IsOngoing _ = ⊥

message_ne_status : ¬ (header_name "grpc-message" ≡ header_name "grpc-status")
message_ne_status e = absurd (cc)

-- The trailers of the deadline say so, once.
pub deadline_trailers_lem :
    (m : HeaderMap)
    → (m.get_all (deadline_trailers m) (header_name "grpc-status") ≡ codes "4" ∷ [])
      × (m.get_all (deadline_trailers m) (header_name "grpc-message")
          ≡ codes "deadline exceeded" ∷ [])
unfolding deadline_trailers
deadline_trailers_lem m = (
  m.get_all-insert_other _ "grpc-message" (header_name "grpc-status") _ message_ne_status
      ∙ m.get_all-insert_self _ "grpc-status" _,
  m.get_all-insert_self _ "grpc-message" _,
)

module _ {S R T E : Type 0} ⦃d : Display E⦄ (m : HeaderMap) (h3 : RecvStream S m.H E) where
  -- The body after polls in given worlds.
  abbrev pub after : List (World S R) → ClientRecvBody S R T → ClientRecvBody S R T
  after [] b = b
  after (w ∷ ws) b = after ws (poll_in m h3 w b).body

  -- What a body is before its deadline ends it.
  record IsLive (deadline : ℕ) (b : ClientRecvBody S R T) : Type 0 where
    opened : b.is_closed ≡ false
    timed : b.deadline ≡ some deadline
    untold : b.trailers_done ≡ false

  -- A closed body has ended, and has no task to abort.
  abbrev IsOver : ClientRecvBody S R T → Type 0
  IsOver b = (b.is_closed ≡ true) × (b.abort_handle ≡ none)
