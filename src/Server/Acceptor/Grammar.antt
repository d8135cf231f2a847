-- ===== src/Server/Acceptor/Grammar.antt =====
-- The operations of a response, in order (crates/grpc-quic-server/src/acceptor.rs).
use grpc_quic_rs.Common.{
  ℕ, suc, String, List, [], ◌∷◌, Option, none, some, true, false, Result, ok, err, Bytes, ◌≡◌, refl,
}
use grpc_quic_rs.Core.Http.{Frame, bytes, trailers, unknown}
use grpc_quic_rs.Core.Wire.{WireOp, head, chunk, tail, finish, Network, Action, ops}
use grpc_quic_rs.Core.Body.Server.{ServerRecvBody}
use grpc_quic_rs.Server.Acceptor.{
  Request, Response, Service, service_request, fail_500, after_data, forward, after_head, called,
  respond, handle_request,
}

-- How a body goes over the wire: data that was sent, and then trailers, or the end of the stream,
-- or data that could not be sent and the end behind it.
pub data IsBody {P H E : Type 0} : List (WireOp P H × Option E) → Type 0 where
  ends : (r : Option E) → IsBody ((finish, r) ∷ [])
  trails : (h : H) (r : Option E) → IsBody ((tail h, r) ∷ [])
  sends :
      (b : Bytes) {rest : List (WireOp P H × Option E)}
      → IsBody rest
      → IsBody ((chunk b, none) ∷ rest)
  breaks : (b : Bytes) (e : E) (r : Option E) → IsBody ((chunk b, some e) ∷ (finish, r) ∷ [])

-- A whole response: nothing at all, or one head; a body only behind a head that was sent.
pub data IsResponse {P H E : Type 0} : List (WireOp P H × Option E) → Type 0 where
  nothing : IsResponse []
  bare : (p : P) (r : Option E) → IsResponse ((head p, r) ∷ [])
  full :
      (p : P) {rest : List (WireOp P H × Option E)}
      → IsBody rest
      → IsResponse ((head p, none) ∷ rest)

module _ {P H E : Type 0} (net : Network E) where
  after_data-IsBody :
      (n : ℕ) (buf : Bytes) (rest : List (Action P H E)) (r : Option E)
      → IsBody (ops rest)
      → IsBody (ops (after_data net n buf rest r))
  unfolding after_data
  after_data-IsBody n buf rest none h = sends buf h
  after_data-IsBody n buf rest (some e) h = breaks buf e (net (suc n))

  fail_500-IsResponse : (p : Option P) → IsResponse (ops (fail_500 {H = H} net p))
  unfolding fail_500
  fail_500-IsResponse none = nothing
  fail_500-IsResponse (some p) = bare p (net 0)

module _ {P H B E : Type 0} (net : Network E) where
  -- Once data was received the body goes over the wire to an end; before that it may be silent.
  forward-IsBody :
      (n : ℕ) (body : List (Result (Frame H) B)) → IsBody (ops (forward {P = P} net n true body))
  unfolding forward
  forward-IsBody n [] = ends (net n)
  forward-IsBody n (ok (bytes buf) ∷ body) =
      after_data-IsBody net n buf _ (net n) (forward-IsBody (suc n) body)
  forward-IsBody n (ok (trailers h) ∷ body) = trails h (net n)
  forward-IsBody n (ok unknown ∷ body) = forward-IsBody n body
  forward-IsBody n (err e ∷ body) = ends (net n)

  forward-IsResponse :
      (p : P) (n : ℕ) (body : List (Result (Frame H) B))
      → IsResponse ((head p, none) ∷ ops (forward {P = P} net n false body))
  unfolding forward
  forward-IsResponse p n [] = bare p none
  forward-IsResponse p n (ok (bytes buf) ∷ body) =
      full p (after_data-IsBody net n buf _ (net n) (forward-IsBody (suc n) body))
  forward-IsResponse p n (ok (trailers h) ∷ body) = full p (trails h (net n))
  forward-IsResponse p n (ok unknown ∷ body) = forward-IsResponse p n body
  forward-IsResponse p n (err e ∷ body) = full p (ends (net n))

  after_head-IsResponse :
      (response : Response P H B) (r : Option E) → IsResponse (ops (after_head net response r))
  unfolding after_head
  after_head-IsResponse response none = forward-IsResponse response.head 1 response.body
  after_head-IsResponse response (some e) = bare response.head (some e)

  called-IsResponse :
      {X : Type 0} (p : Option P) (r : Result (Response P H B) X)
      → IsResponse (ops (called net p r))
  unfolding called
  called-IsResponse p (ok response) = after_head-IsResponse response (net 0)
  called-IsResponse p (err e) = fail_500-IsResponse net p

  respond-IsResponse :
      {R X : Type 0} (p : Option P) (service : Service R (Response P H B) X) (request : R)
      (r : Result (Unit {0}) X)
      → IsResponse (ops (respond net p service request r))
  unfolding respond
  respond-IsResponse p service request (ok _) = called-IsResponse p (service.call request)
  respond-IsResponse p service request (err e) = fail_500-IsResponse net p

  -- Whatever the service, its body and the network do, a request is handled without an error, and
  -- its operations are a well-formed response: at most one head, first; data only while the head
  -- and all data before it were sent; nothing behind trailers or the end of the stream; and a body
  -- of which data was sent is brought to an end.
  pub handle_request-IsResponse :
      {M U S X Q : Type 0} (path_of : U → String) (plain_500 : Option P)
      (service : Service (Request M U H (ServerRecvBody S)) (Response P H B) X)
      (req : Request M U H (Unit {0})) (recv : S)
      → ((handle_request net {Q = Q} path_of plain_500 service req recv).0 ≡ ok tt)
        × IsResponse (ops (handle_request net {Q = Q} path_of plain_500 service req recv).1)
  unfolding handle_request
  handle_request-IsResponse path_of plain_500 service req recv =
      (refl, respond-IsResponse plain_500 service (service_request req recv) service.ready)
