-- ===== src/Exchange/Response.antt =====
-- A response's body from the server to the client: `handle_request`
-- (crates/grpc-quic-server/src/acceptor.rs) and the body that the caller reads
-- (crates/grpc-quic-core/src/body.rs), with a stream between them that delivers what was written
-- and ends when the server finishes it or lets go of it.
use grpc_quic_rs.Common.{
  ℕ, suc, String, List, [], ◌∷◌, ◌++◌, map, Option, some, Bool, true, false, Result, ok, err, ready,
  length, Display, ◌≡◌, refl, ap, ◌∙◌, All,
}
use grpc_quic_rs.Core.Http.{HeaderMap, Frame, bytes, trailers, unknown}
use grpc_quic_rs.Core.Wire.{WireOp, chunk, ops}
use grpc_quic_rs.Core.Body.Peer.{Peer, peer_stream, transcript, content}
use grpc_quic_rs.Core.Body.Server.{ServerRecvBody}
use grpc_quic_rs.Core.Body.Client
use grpc_quic_rs.Core.Body.Client.{World}
use grpc_quic_rs.Core.Body.Client.Transcript.{IsCalm, response-transcript}
use grpc_quic_rs.Client.Forward.Grammar.{IsSound}
use grpc_quic_rs.Server.Acceptor.{Request, Response, Service, service_request, handle_request}
use grpc_quic_rs.Server.Acceptor.Delivery.{
  payload, closing, succeed, reliable, handle_request-payload,
}
use grpc_quic_rs.Exchange.{arrivals, last_trailers, IsCarried, content-IsCarried, given}

sent-transcript :
    (P E : Type 0) {H B : Type 0} (got : Bool) (body : List (Result (Frame H) B))
    → IsSound body
    → let sent : List (WireOp P H × Option E) =
        succeed (map chunk (payload body) ++ closing got body) in
      transcript (arrivals sent) (last_trailers sent) ≡ given body
sent-transcript P E true [] sound = refl
sent-transcript P E false [] sound = refl
sent-transcript P E got (err e ∷ body) sound = absurd sound
sent-transcript P E got (ok (bytes b) ∷ body) sound =
    ap (◌∷◌ (ready (some (ok (bytes b))))) (sent-transcript P E true body sound)
sent-transcript P E got (ok (trailers h) ∷ body) sound = refl
sent-transcript P E got (ok unknown ∷ body) sound = sent-transcript P E got body sound

-- What the server writes.
abbrev pub written :
    {P H B M U S X : Type 0} (E Q : Type 0) (path_of : U → String) (plain_500 : Option P)
    (service : Service (Request M U H (ServerRecvBody S)) (Response P H B) X)
    (req : Request M U H (Unit {0})) (recv : S)
    → List (WireOp P H × Option E)
written E Q path_of plain_500 service req recv =
    ops (handle_request {E = E} reliable {Q = Q} path_of plain_500 service req recv).1

-- If the service answers with a response whose body gives no error, then over a network without
-- failures, before its deadline, if it has one, and without an error from the task that sends the
-- request's body, the client's body, over a stream that delivers what the server wrote, gives the
-- caller the bytes of that body, in order and unchanged, and behind them its trailers or the end.
pub response_arrives :
    {P B M U S X R T : Type 0} (N E Q : Type 0) ⦃d : Display N⦄ (m : HeaderMap)
    (path_of : U → String) (plain_500 : Option P)
    (service : Service (Request M U m.H (ServerRecvBody S)) (Response P m.H B) X)
    (req : Request M U m.H (Unit {0})) (recv : S) (response : Response P m.H B) (p : Peer m.H)
    (rx : R) (t : T) (deadline : Option ℕ) (ws : List (World (Peer m.H) R))
    → service.ready ≡ ok tt
    → service.call (service_request req recv) ≡ ok response
    → IsSound response.body
    → IsCarried (written E Q path_of plain_500 service req recv) p
    → length ws ≡ suc (length p.chunks)
    → All (IsCalm rx deadline) ws
    → content (Client.polls m (peer_stream {E = N}) ws (Client.new p (some rx) (some t) deadline))
      ≡ content (given response.body)
response_arrives {P} N E Q m path_of plain_500 service req recv response p rx t deadline ws is_ready
      answer sound carried count calm =
    let w = written E Q path_of plain_500 service req recv in
    ap content (response-transcript N m rx t deadline ws p.chunks p.last count calm)
    ∙ content-IsCarried w p carried
    ∙ ap content (
        ap (λ (l : List (WireOp P m.H × Option E)). transcript (arrivals l) (last_trailers l))
          (handle_request-payload E Q path_of plain_500 service req recv response is_ready answer)
        ∙ sent-transcript P E false response.body sound)
