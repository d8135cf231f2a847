-- ===== src/Exchange.antt =====
-- A request's body from the client to the server: the task that forwards it
-- (crates/grpc-quic-client/src/channel.rs) and the body that the service reads
-- (crates/grpc-quic-core/src/body.rs), with a stream between them that delivers what was written.
pub mod Response
pub mod Rpc
mod Tests
use grpc_quic_rs.Common.{
  ℕ, suc, List, [], ◌∷◌, map, Option, none, some, Result, ok, err, Poll, ready, Bytes, length,
  Display, ◌≡◌, refl, ap, ◌∙◌, sym,
}
use grpc_quic_rs.Core.Http.{Frame, bytes, trailers, unknown}
use grpc_quic_rs.Core.Wire.{WireOp, head, chunk, tail, finish, Network, ops}
use grpc_quic_rs.Core.Body.{FramePoll}
use grpc_quic_rs.Core.Body.Peer.{
  Peer, peer_stream, transcript, content, all_bytes, content-transcript,
}
use grpc_quic_rs.Core.Body.Server
use grpc_quic_rs.Core.Body.Server.Transcript.{polls-transcript}
use grpc_quic_rs.Client.Forward.{forward}
use grpc_quic_rs.Client.Forward.Grammar.{wanted, succeeded, IsSound, unreported_is_sent}

-- What operations put on the stream, if each of them succeeds where it says so: the data in order,
-- and the trailers.
abbrev pub arrivals : {P H E : Type 0} → List (WireOp P H × Option E) → List (Option Bytes)
arrivals [] = []
arrivals ((chunk b, none) ∷ rest) = some b ∷ arrivals rest
arrivals (_ ∷ rest) = arrivals rest

abbrev pub last_trailers : {P H E : Type 0} → List (WireOp P H × Option E) → Option H
last_trailers [] = none
last_trailers ((tail h, none) ∷ rest) = some h
last_trailers (_ ∷ rest) = last_trailers rest

-- The stream `p` delivers what operations have written: all their bytes, in order, in chunks that h3
-- cuts and times as it likes, and the trailers.
pub record IsCarried {P H E : Type 0} (sent : List (WireOp P H × Option E)) (p : Peer H)
    : Type 0 where
  pub octets : all_bytes p.chunks ≡ all_bytes (arrivals sent)
  pub last : p.last ≡ last_trailers sent

pub content-IsCarried :
    {P H E : Type 0} (sent : List (WireOp P H × Option E)) (p : Peer H)
    → IsCarried sent p
    → content (transcript p.chunks p.last)
      ≡ content (transcript (arrivals sent) (last_trailers sent))
content-IsCarried sent p v =
    content-transcript p.chunks p.last
    ∙ rw (v.octets, v.last) (sym (content-transcript (arrivals sent) (last_trailers sent)))

-- The answers that a reader of the client's body would get from it directly.
abbrev pub given : {H B : Type 0} → List (Result (Frame H) B) → List (FramePoll H)
given [] = ready none ∷ []
given (err e ∷ body) = []
given (ok (bytes b) ∷ body) = ready (some (ok (bytes b))) ∷ given body
given (ok (trailers h) ∷ body) = ready (some (ok (trailers h))) ∷ []
given (ok unknown ∷ body) = given body

wanted-transcript :
    (P E : Type 0) {H B : Type 0} (body : List (Result (Frame H) B))
    → IsSound body
    → let sent : List (WireOp P H × Option E) = map succeeded (wanted body) in
      transcript (arrivals sent) (last_trailers sent) ≡ given body
wanted-transcript P E [] sound = refl
wanted-transcript P E (err e ∷ body) sound = absurd sound
wanted-transcript P E (ok (bytes b) ∷ body) sound =
    ap (◌∷◌ (ready (some (ok (bytes b))))) (wanted-transcript P E body sound)
wanted-transcript P E (ok (trailers h) ∷ body) sound = refl
wanted-transcript P E (ok unknown ∷ body) sound = wanted-transcript P E body sound

module _ (P : Type 0) {H B E : Type 0} ⦃d : Display E⦄ ⦃b : Display B⦄ (net : Network E) where
  -- If the client's task reports no error, and a stream delivers to the server what the task wrote,
  -- in chunks of any sizes at any times, the server's body, polled once for each chunk and each wait
  -- and once more, gives the service the bytes of the client's body, in order and unchanged, and
  -- behind them its trailers, if it has some, or the end.
  pub request_arrives :
      (body : List (Result (Frame H) B)) (p : Peer H)
      → (forward {P = P} net 0 body).reported ≡ none
      → IsCarried (ops (forward {P = P} net 0 body).trace) p
      → content (Server.polls (peer_stream {E = E}) (λ s. s) (suc (length p.chunks)) (Server.new p))
        ≡ content (given body)
  request_arrives body p h carried =
      let sent = ops (forward {P = P} net 0 body).trace in
      let (same, sound) = unreported_is_sent P net 0 body h in
      ap content (polls-transcript E p.chunks p.last)
      ∙ content-IsCarried sent p carried
      ∙ ap content (
          ap (λ (l : List (WireOp P H × Option E)). transcript (arrivals l) (last_trailers l)) same
          ∙ wanted-transcript P E body sound)
