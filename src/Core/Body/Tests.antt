-- ===== src/Core/Body/Tests.antt =====
-- Examples of the bodies (crates/grpc-quic-core/src/body.rs): a peer that sends one chunk, after a
-- pause.
use grpc_quic_rs.Common.{
  ℕ, String, List, [], ◌∷◌, Option, none, some, pending, ready, codes, string_display,
}
use grpc_quic_rs.Errors.{connection_closed}
use grpc_quic_rs.Fixtures.{text_headers}
use grpc_quic_rs.Core.Body.{RecvStream}
use grpc_quic_rs.Core.Body.Peer.{Peer, peer_stream}
use grpc_quic_rs.Core.Body.Client
use grpc_quic_rs.Core.Body.Client.{ClientRecvBody, World}

abbrev chunks : List (Option (List ℕ))
chunks = none ∷ some (codes "hi") ∷ []

abbrev peer : RecvStream (Peer text_headers.H) text_headers.H String
peer = peer_stream

abbrev late : World (Peer text_headers.H) ℕ
late = record { now = 20; poll_rx = λ r. ready (some connection_closed); arrive = λ s. s }

abbrev response_body : ClientRecvBody (Peer text_headers.H) ℕ ℕ
response_body = Client.new (record { chunks = chunks; last = none }) (some 1) (some 2) (some 10)

-- A poll before anything has come, and a chunk, before the deadline.
abbrev early : World (Peer text_headers.H) ℕ
early = record { now = 3; poll_rx = λ r. pending; arrive = λ s. s }
