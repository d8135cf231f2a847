-- ===== src/Core/Body/Peer.antt =====
-- A peer that sends given data and trailers, at times of its own choice: the reference against
-- which the bodies of crates/grpc-quic-core/src/body.rs are measured.
use grpc_quic_rs.Common.{
  List, [], ◌∷◌, Option, none, some, Result, ok, Poll, pending, ready, Bytes, ◌++◌, ◌≡◌, refl, ap,
}
use grpc_quic_rs.Core.Http.{bytes, trailers}
use grpc_quic_rs.Core.Body.{RecvStream, FramePoll}

-- What is still to come: for each poll a chunk of data, or that nothing has arrived; then trailers.
pub record Peer (H : Type 0) : Type 0 where
  pub chunks : List (Option Bytes)
  pub last : Option H

module _ {H E : Type 0} where
  data_answer : Option H → List (Option Bytes) → Poll (Result (Option Bytes) E) × Peer H
  data_answer h [] = (ready (ok none), record { chunks = []; last = h })
  data_answer h (none ∷ rest) = (pending, record { chunks = rest; last = h })
  data_answer h (some c ∷ rest) = (ready (ok (some c)), record { chunks = rest; last = h })

  -- The stream that such a peer makes.
  unfoldable pub peer_stream : RecvStream (Peer H) H E
  unfolding data_answer
  peer_stream = record {
    poll_recv_data = λ p. data_answer p.last p.chunks;
    poll_recv_trailers = λ p. (ready (ok p.last), record p { last = none });
  }

-- The answers that a faithful body gives, one for each poll.
abbrev pub ending : {H : Type 0} → Option H → FramePoll H
ending none = ready none
ending (some h) = ready (some (ok (trailers h)))

abbrev pub transcript : {H : Type 0} → List (Option Bytes) → Option H → List (FramePoll H)
transcript [] h = ending h ∷ []
transcript (none ∷ rest) h = pending ∷ transcript rest h
transcript (some c ∷ rest) h = ready (some (ok (bytes c))) ∷ transcript rest h

-- The bytes of a peer.
abbrev pub all_bytes : List (Option Bytes) → Bytes
all_bytes [] = []
all_bytes (none ∷ chunks) = all_bytes chunks
all_bytes (some b ∷ chunks) = b ++ all_bytes chunks

-- What answers say when the cuts between chunks, and the waits, are forgotten: the bytes, and the
-- answers from the first one on that is neither a chunk nor a wait.
pub record Content (H : Type 0) : Type 0 where
  pub octets : Bytes
  pub rest : List (FramePoll H)

module _ {H : Type 0} where
  abbrev pub content : List (FramePoll H) → Content H
  content [] = record { octets = []; rest = [] }
  content (pending ∷ polls) = content polls
  content (ready (some (ok (bytes b))) ∷ polls) = record (content polls) {
    octets = b ++ (content polls).octets;
  }
  content (p ∷ polls) = record { octets = []; rest = p ∷ polls }

  pub content-transcript :
      (chunks : List (Option Bytes)) (last : Option H)
      → content (transcript chunks last)
        ≡ record { octets = all_bytes chunks; rest = ending last ∷ [] }
  content-transcript [] none = refl
  content-transcript [] (some h) = refl
  content-transcript (none ∷ chunks) last = content-transcript chunks last
  content-transcript (some b ∷ chunks) last =
      ap {A = Content H} (λ c. record c { octets = b ++ c.octets }) (content-transcript chunks last)
