-- ===== src/Server/Acceptor.antt =====
-- crates/grpc-quic-server/src/acceptor.rs: one request of a connection. The service and its
-- response body are parameters: the body is the list of what its polls give until it ends.
pub mod Grammar
pub mod Delivery
mod Tests
use grpc_quic_rs.Common.{
  ℕ, suc, String, List, [], ◌∷◌, Option, none, some, Bool, true, false, Result, ok, err, Bytes,
  length,
}
use grpc_quic_rs.Core.Http.{Frame, bytes, trailers, unknown}
use grpc_quic_rs.Core.Wire.{WireOp, head, chunk, tail, finish, Network, Action, op, metric}
use grpc_quic_rs.Core.Body.Server
use grpc_quic_rs.Core.Body.Server.{ServerRecvBody}
use grpc_quic_rs.Errors.{ServerError}
use grpc_quic_rs.Metrics

-- `http::Request`, with its method, URI and headers.
pub record Request (M U H B : Type 0) : Type 0 where
  pub method : M
  pub uri : U
  pub headers : H
  pub body : B

-- `http::Response`: its head, and its body as the frames and errors that the polls give.
pub record Response (P H B : Type 0) : Type 0 where
  pub head : P
  pub body : List (Result (Frame H) B)

-- A tower service, at one request: `ready`, then `call`.
pub record Service (R A X : Type 0) : Type 0 where
  pub ready : Result (Unit {0}) X
  pub call : R → Result A X

-- The request that the service is given.
abbrev pub service_request :
    {M U H S : Type 0} → Request M U H (Unit {0}) → S → Request M U H (ServerRecvBody S)
service_request req recv = record {
  method = req.method;
  uri = req.uri;
  headers = req.headers;
  body = Server.new recv;
}

module _ {P H E : Type 0} (net : Network E) where
  -- The operation after the loop has been left by `break`.
  finish_after : ℕ → List (Action P H E)
  finish_after n = op finish (net n) ∷ []

  after_data : ℕ → Bytes → List (Action P H E) → Option E → List (Action P H E)
  unfolding finish_after
  after_data n buf rest (some e) = op (chunk buf) (some e) ∷ finish_after (suc n)
  after_data n buf rest none =
      op (chunk buf) none ∷ metric (Metrics.sent "server" (length buf)) ∷ rest

  -- The answer to a service that fails; `plain_500` is the built response with status 500.
  fail_500 : Option P → List (Action P H E)
  fail_500 none = []
  fail_500 (some resp) = op (head resp) (net 0) ∷ []

module _ {P H B E : Type 0} (net : Network E) where
  -- The loop; `n` operations were tried before, and `data_frame_received` is the source's variable.
  forward : ℕ → Bool → List (Result (Frame H) B) → List (Action P H E)
  unfolding after_data finish_after
  forward n true [] = op finish (net n) ∷ []
  forward n false [] = []
  forward n data_frame_received (ok (bytes buf) ∷ body) =
      after_data net n buf (forward (suc n) true body) (net n)
  forward n data_frame_received (ok (trailers h) ∷ body) = op (tail h) (net n) ∷ []
  forward n data_frame_received (ok unknown ∷ body) = forward n data_frame_received body
  forward n data_frame_received (err e ∷ body) = finish_after net n

  -- The head of the response, and the body if the head could be sent.
  after_head : Response P H B → Option E → List (Action P H E)
  unfolding forward
  after_head response (some e) = op (head response.head) (some e) ∷ []
  after_head response none = op (head response.head) none ∷ forward 1 false response.body

  called : {X : Type 0} → Option P → Result (Response P H B) X → List (Action P H E)
  unfolding after_head fail_500
  called plain_500 (ok response) = after_head response (net 0)
  called plain_500 (err e) = fail_500 net plain_500

  respond :
      {R X : Type 0}
      → Option P
      → Service R (Response P H B) X
      → R
      → Result (Unit {0}) X
      → List (Action P H E)
  unfolding called fail_500
  respond plain_500 service request (ok _) = called plain_500 (service.call request)
  respond plain_500 service request (err e) = fail_500 net plain_500

  unfoldable pub handle_request :
      {M U S X Q : Type 0}
      → (U → String)
      → Option P
      → Service (Request M U H (ServerRecvBody S)) (Response P H B) X
      → Request M U H (Unit {0})
      → S
      → Result (Unit {0}) (ServerError Q) × List (Action P H E)
  unfolding respond
  handle_request path_of plain_500 service req recv = (
    ok tt,
    metric (Metrics.request "server" (path_of req.uri))
        ∷ metric (Metrics.stream "server")
        ∷ respond plain_500 service (service_request req recv) service.ready,
  )
