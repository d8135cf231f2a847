-- ===== src/Exchange/Rpc.antt =====
-- A whole call: `QuicChannel::call` with its forwarding task
-- (crates/grpc-quic-client/src/channel.rs), `handle_request` (crates/grpc-quic-server/src/acceptor.rs)
-- and the bodies on both sides (crates/grpc-quic-core/src/body.rs), with streams between them that
-- deliver what was written.
use grpc_quic_rs.Common.{
  ℕ, suc, String, List, [], ◌∷◌, Option, none, some, Bool, Result, ok, length, Display, ◌≡◌, refl,
  ap, ◌∙◌, sym, All, Bytes, subst, unwrap_or,
}
use grpc_quic_rs.Core.Http.{HeaderMap, Frame}
use grpc_quic_rs.Core.Wire.{WireOp, head, Network, ops}
use grpc_quic_rs.Core.Body.Peer.{Peer, peer_stream, Content, content}
use grpc_quic_rs.Core.Body.Server
use grpc_quic_rs.Core.Body.Server.{ServerRecvBody}
use grpc_quic_rs.Core.Body.Client
use grpc_quic_rs.Core.Body.Client.{ClientRecvBody}
use grpc_quic_rs.Core.Body.Client.Transcript.{IsCalm}
use grpc_quic_rs.Client.Call
use grpc_quic_rs.Client.Call.{Parts, H3Request, call_headers, call_uri, h3_request, call}
use grpc_quic_rs.Client.Call.Carried.{IsFrom, call-IsFrom}
use grpc_quic_rs.Client.Call.Rounds.{sent_request}
use grpc_quic_rs.Client.Forward.{forward}
use grpc_quic_rs.Client.Forward.Grammar.{IsSound}
use grpc_quic_rs.Client.Retry.{Float, RetryPolicy}
use grpc_quic_rs.Server.Acceptor
use grpc_quic_rs.Server.Acceptor.{Request, Service, service_request, handle_request}
use grpc_quic_rs.Server.Acceptor.Delivery.{handle_request-payload}
use grpc_quic_rs.Exchange.{IsCarried, given, request_arrives}
use grpc_quic_rs.Exchange.Response.{written, response_arrives}

-- The head that operations put on the stream.
abbrev pub first_head : {P H E : Type 0} → List (WireOp P H × Option E) → Option P
first_head [] = none
first_head ((head p, none) ∷ rest) = some p
first_head (_ ∷ rest) = first_head rest

abbrev with_body : {M U H B D : Type 0} → Request M U H B → D → Request M U H D
with_body req body = record {
  method = req.method;
  uri = req.uri;
  headers = req.headers;
  body = body;
}

module _ {M H T B : Type 0} (E X : Type 0) ⦃d : Display E⦄
    (answer : Request M String H (Content H) → Acceptor.Response (T × H) H B) where
  -- A service that reads the body of its request to the end, and answers with a function of the
  -- request and of what it has read, in which the cuts between chunks do not count.
  abbrev pub reading :
      Service (Request M String H (ServerRecvBody (Peer H))) (Acceptor.Response (T × H) H B) X
  reading = record {
    ready = ok tt;
    call = λ r. ok (
        answer (
          with_body r (
            content (
              Server.polls (peer_stream {E = E}) (λ s. s) (suc (length r.body.stream.chunks))
                r.body))));
  }

-- What a server is given of a request over HTTP/3.
abbrev pub resolved : {M H : Type 0} → H3Request M H → Request M String H (Unit {0})
resolved req = record { method = req.method; uri = req.uri; headers = req.headers; body = tt }

module _ {M T H B B' N : Type 0} (Q : Type 0) ⦃dn : Display N⦄ ⦃db : Display B⦄ (net : Network N)
    (body : List (Result (Frame H) B)) (arrived : Peer H) (path_of : String → String)
    (plain_500 : Option (T × H))
    (answer : Request M String H (Content H) → Acceptor.Response (T × H) H B') where
  -- What the server writes when it is given a request and the stream of its body.
  abbrev pub outgoing : H3Request M H → List (WireOp (T × H) H × Option N)
  outgoing req = written N Q path_of plain_500 (reading N String answer) (resolved req) arrived

  -- h3 delivers the body of the request to the server, and what the server writes back to the
  -- caller: its head, and a stream with the rest; in chunks of any sizes at any times.
  pub record Delivers {C H3 E : Type 0} (w : Call.World C H3 M H (Peer H) T E Q) : Type 0 where
    pub reaches : IsCarried (ops (forward {P = T × H} net 0 body).trace) arrived
    pub sends :
        (n : ℕ) (h3 : H3) (req : H3Request M H) (recv : Peer H)
        → w.send n h3 req ≡ ok recv
        → IsCarried (outgoing req) recv
    pub answers :
        (n : ℕ) (h3 : H3) (req : H3Request M H) (recv : Peer H) (p : T × H)
        → w.send n h3 req ≡ ok recv
        → w.recv_response n recv ≡ ok p
        → first_head (outgoing req) ≡ some p

module _ {A C H3 M T E Q B B' N : Type 0} ⦃d : Display E⦄ ⦃dn : Display N⦄ ⦃db : Display B⦄
    (m : HeaderMap) (f : Float) (w : Call.World C H3 M m.H (Peer m.H) T E Q)
    (retry : RetryPolicy f.F) (remote : A) (server_name : String) (parts : Parts M m.H)
    (net : Network N) (body : List (Result (Frame m.H) B)) (arrived : Peer m.H)
    (path_of : String → String) (plain_500 : Option (T × m.H))
    (answer : Request M String m.H (Content m.H) → Acceptor.Response (T × m.H) m.H B') where
  -- The request that the service sees, with what it reads of the body.
  abbrev pub seen : Request M String m.H (Content m.H)
  seen = record {
    method = parts.method;
    uri = call_uri (unwrap_or server_name parts.authority) parts.path;
    headers = call_headers m parts.headers;
    body = content (given body);
  }

  module _ (deadline : Option ℕ) where
    abbrev asked : H3Request M m.H
    asked = sent_request m f w retry remote server_name deadline parts

    called_with :
        (forward {P = T × m.H} net 0 body).reported ≡ none
        → IsCarried (ops (forward {P = T × m.H} net 0 body).trace) arrived
        → (reading N String answer).call (service_request (resolved asked) arrived)
          ≡ ok (answer seen)
    unfolding h3_request
    called_with h carried =
        ap (λ frames. ok (answer (with_body (resolved asked) frames)))
          (request_arrives (T × m.H) net body arrived h carried)

    outgoing-head :
        (forward {P = T × m.H} net 0 body).reported ≡ none
        → IsCarried (ops (forward {P = T × m.H} net 0 body).trace) arrived
        → first_head (outgoing Q net body arrived path_of plain_500 answer asked)
          ≡ some (answer seen).head
    outgoing-head h carried = ap first_head (
        handle_request-payload N Q path_of plain_500 (reading N String answer) (resolved asked)
          arrived (answer seen) refl (called_with h carried))

    some_inj : (x y : T × m.H) → some x ≡ some y → x ≡ y
    some_inj x y h = cc

    response_from :
        (r : Call.Response T m.H (ClientRecvBody (Peer m.H) ℕ ℕ))
        (ws : List (Client.World (Peer m.H) ℕ))
        → IsFrom m f w retry remote server_name deadline parts r
        → (forward {P = T × m.H} net 0 body).reported ≡ none
        → Delivers Q net body arrived path_of plain_500 answer w
        → IsSound (answer seen).body
        → length ws ≡ suc (length r.body.stream.chunks)
        → ((k : ℕ) → All (IsCalm k r.body.deadline) ws)
        → ((r.status, r.headers) ≡ (answer seen).head)
          × (content (Client.polls m (peer_stream {E = N}) ws r.body)
              ≡ content (given (answer seen).body))
    response_from r ws it reported delivers sound count calm =
        let carried = delivers.sends it.attempt it.entry.h3 asked it.recv it.sends in
        let head_is =
          delivers.answers it.attempt it.entry.h3 asked it.recv (r.status, r.headers) it.sends
            it.answers in
        (
          some_inj _ _ (sym head_is ∙ outgoing-head reported delivers.reaches),
          ap (λ b. content (Client.polls m (peer_stream {E = N}) ws b)) it.reads
              ∙ response_arrives N N Q m path_of plain_500 (reading N String answer)
                  (resolved asked) arrived (answer seen) it.recv it.attempt it.attempt deadline ws
                  refl (called_with reported delivers.reaches) sound carried
                  (count ∙ ap (λ b. suc (length b.stream.chunks)) it.reads)
                  (subst (λ dl. All (IsCalm it.attempt dl) ws) (ap (λ b. b.deadline) it.reads)
                    (calm it.attempt)),
        )

  -- A whole call over streams that deliver what is written, in chunks of any sizes at any times, to
  -- a service that reads its request to the end and for which the cuts between chunks do not count.
  -- Suppose that the forwarding task reports no error, that the call has a response, and that the
  -- service's answer is a body without an error. Then, whichever attempt it was, the head of the
  -- response is that of the answer; and its body, polled before the deadline, if there is one,
  -- without an error from that task, once for each chunk and each wait and once more, gives the
  -- caller the bytes of the answer, in order, and behind them its trailers or the end. The answer is
  -- the service's function of the caller's method, path and headers, with those of gRPC, and of the
  -- bytes of the caller's body, in order, with its trailers or the end.
  pub rpc_answers :
      (now : ℕ) (to_str : Bytes → Option Bytes) (permit : Bool) (expired : Option ℕ)
      (r : Call.Response T m.H (ClientRecvBody (Peer m.H) ℕ ℕ))
      (ws : List (Client.World (Peer m.H) ℕ))
      → (call m f w retry remote server_name now to_str permit expired parts).1 ≡ ok r
      → (forward {P = T × m.H} net 0 body).reported ≡ none
      → Delivers Q net body arrived path_of plain_500 answer w
      → IsSound (answer seen).body
      → length ws ≡ suc (length r.body.stream.chunks)
      → ((k : ℕ) → All (IsCalm k r.body.deadline) ws)
      → ((r.status, r.headers) ≡ (answer seen).head)
        × (content (Client.polls m (peer_stream {E = N}) ws r.body)
            ≡ content (given (answer seen).body))
  rpc_answers now to_str permit expired r ws h =
      let (dl, it) =
        call-IsFrom m f w retry remote server_name now to_str permit expired parts r h in
      response_from dl r ws it
