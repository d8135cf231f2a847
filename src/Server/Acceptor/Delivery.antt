-- ===== src/Server/Acceptor/Delivery.antt =====
-- What reaches the client, and what is counted (crates/grpc-quic-server/src/acceptor.rs).
use grpc_quic_rs.Common.{
  ℕ, suc, ◌+◌, ◌%◌, String, List, [], ◌∷◌, ◌++◌, map, sum, length, Option, none, some, Bool, true,
  false, Result, ok, err, Bytes, ◌≡◌, refl, ap, arith, u64_mod, ◌∙◌, ◌⊎◌, inl, inr,
}
use grpc_quic_rs.Core.Http.{Frame, bytes, trailers, unknown}
use grpc_quic_rs.Core.Wire.{WireOp, head, chunk, tail, finish, Network, Action, ops, metrics}
use grpc_quic_rs.Core.Body.Server.{ServerRecvBody}
use grpc_quic_rs.Metrics.{CounterVec, Metrics, get_metrics, record_all}
use grpc_quic_rs.Metrics.Totals.{share, bytes_sent, record_all-sum}
use grpc_quic_rs.Server.Acceptor.{
  Request, Response, Service, service_request, fail_500, forward, after_head, called, respond,
  handle_request,
}

-- The data of a body, up to its trailers, its first error or its end.
abbrev pub payload : {H B : Type 0} → List (Result (Frame H) B) → List Bytes
payload [] = []
payload (ok (bytes buf) ∷ body) = buf ∷ payload body
payload (ok (trailers h) ∷ body) = []
payload (ok unknown ∷ body) = payload body
payload (err e ∷ body) = []

-- What stands behind the data; `got` says whether there was any before.
abbrev pub closing : {P H B : Type 0} → Bool → List (Result (Frame H) B) → List (WireOp P H)
closing true [] = finish ∷ []
closing false [] = []
closing got (ok (bytes buf) ∷ body) = closing true body
closing got (ok (trailers h) ∷ body) = tail h ∷ []
closing got (ok unknown ∷ body) = closing got body
closing got (err e ∷ body) = finish ∷ []

-- Operations that all succeed.
abbrev pub succeed : {P H E : Type 0} → List (WireOp P H) → List (WireOp P H × Option E)
succeed = map λ o. (o, none)

-- A network without failures.
abbrev pub reliable : {E : Type 0} → Network E
reliable n = none

forward-payload :
    {P H B E : Type 0} (n : ℕ) (got : Bool) (body : List (Result (Frame H) B))
    → ops (forward {P = P} {E = E} reliable n got body)
      ≡ succeed (map chunk (payload body) ++ closing got body)
unfolding forward
forward-payload n true [] = refl
forward-payload n false [] = refl
forward-payload n got (ok (bytes buf) ∷ body) =
    ap (◌∷◌ (chunk buf, none)) (forward-payload (suc n) true body)
forward-payload n got (ok (trailers h) ∷ body) = refl
forward-payload n got (ok unknown ∷ body) = forward-payload n got body
forward-payload n got (err e ∷ body) = refl

-- Over a network without failures the client is sent the head of the service's response, its data
-- in order and unchanged, and its trailers, if there are any before an error; without trailers the
-- stream is finished, unless there was no data and no error.
pub handle_request-payload :
    {P H B M U S X : Type 0} (E Q : Type 0) (path_of : U → String) (plain_500 : Option P)
    (service : Service (Request M U H (ServerRecvBody S)) (Response P H B) X)
    (req : Request M U H (Unit {0})) (recv : S) (response : Response P H B)
    → service.ready ≡ ok tt
    → service.call (service_request req recv) ≡ ok response
    → ops (handle_request {E = E} reliable {Q = Q} path_of plain_500 service req recv).1
      ≡ succeed
          (head response.head ∷ map chunk (payload response.body) ++ closing false response.body)
unfolding handle_request
handle_request-payload E Q path_of plain_500 service req recv response is_ready answer =
    rw (is_ready, respond, answer, called)
      (ap (◌∷◌ (head response.head, none)) (forward-payload 1 false response.body))

-- The two ways in which a service fails.
abbrev pub Fails : {R A X : Type 0} → Service R A X → R → X → Type 0
Fails service request e =
    (service.ready ≡ err e) ⊎ ((service.ready ≡ ok tt) × (service.call request ≡ err e))

-- A service that is not ready, or whose call fails, is answered by one head with status 500, and
-- nothing else is sent, whatever its error is.
pub handle_request-500 :
    {P H B E M U S X : Type 0} (Q : Type 0) (net : Network E) (path_of : U → String) (plain_500 : P)
    (service : Service (Request M U H (ServerRecvBody S)) (Response P H B) X)
    (req : Request M U H (Unit {0})) (recv : S) (e : X)
    → Fails service (service_request req recv) e
    → ops (handle_request net {Q = Q} path_of (some plain_500) service req recv).1
      ≡ (head plain_500, net 0) ∷ []
unfolding handle_request
handle_request-500 Q net path_of plain_500 service req recv e (inl idle) = rw (idle, respond)
handle_request-500 Q net path_of plain_500 service req recv e (inr (is_ready, failed)) =
    rw (is_ready, respond, failed, called)

-- The bytes of the data that was sent.
abbrev pub sent_bytes : {P H E : Type 0} → List (WireOp P H × Option E) → ℕ
sent_bytes [] = 0
sent_bytes ((chunk b, none) ∷ rest) = length b + sent_bytes rest
sent_bytes ((chunk b, some e) ∷ rest) = sent_bytes rest
sent_bytes ((head p, r) ∷ rest) = sent_bytes rest
sent_bytes ((tail h, r) ∷ rest) = sent_bytes rest
sent_bytes ((finish, r) ∷ rest) = sent_bytes rest

-- What a trace adds to the counter of sent bytes of the server.
abbrev counted : {P H E : Type 0} → List (Action P H E) → ℕ
counted acts = sum (map (share bytes_sent ("server" ∷ [])) (metrics acts))

module _ {P E : Type 0} (H : Type 0) (net : Network E) where
  fail_500-counted :
      (p : Option P) → counted (fail_500 {H = H} net p) ≡ sent_bytes (ops (fail_500 {H = H} net p))
  unfolding fail_500
  fail_500-counted none = refl
  fail_500-counted (some p) = refl

module _ (P : Type 0) {H B E : Type 0} (net : Network E) where
  forward-counted :
      (n : ℕ) (got : Bool) (body : List (Result (Frame H) B))
      → counted (forward {P = P} net n got body) ≡ sent_bytes (ops (forward {P = P} net n got body))
  unfolding forward
  forward-counted n true [] = refl
  forward-counted n false [] = refl
  forward-counted n got (ok (bytes buf) ∷ body) = ground (arith, forward-counted (suc n) true body)
  forward-counted n got (ok (trailers h) ∷ body) = refl
  forward-counted n got (ok unknown ∷ body) = forward-counted n got body
  forward-counted n got (err e ∷ body) = refl

  after_head-counted :
      (response : Response P H B) (r : Option E)
      → counted (after_head net response r) ≡ sent_bytes (ops (after_head net response r))
  unfolding after_head
  after_head-counted response none = forward-counted 1 false response.body
  after_head-counted response (some e) = refl

  called-counted :
      {X : Type 0} (p : Option P) (r : Result (Response P H B) X)
      → counted (called net p r) ≡ sent_bytes (ops (called net p r))
  unfolding called
  called-counted p (ok response) = after_head-counted response (net 0)
  called-counted p (err e) = fail_500-counted H net p

  respond-counted :
      {R X : Type 0} (p : Option P) (service : Service R (Response P H B) X) (request : R)
      (r : Result (Unit {0}) X)
      → counted (respond net p service request r)
        ≡ sent_bytes (ops (respond net p service request r))
  unfolding respond
  respond-counted p service request (ok _) = called-counted p (service.call request)
  respond-counted p service request (err e) = fail_500-counted H net p

-- Whatever the service, its body and the network do, handling a request raises the server's counter
-- of sent bytes by the bytes of the data that was sent, modulo 2^64: none for data that failed.
pub handle_request-counts :
    {P H B E M U S X : Type 0} (Q : Type 0) (net : Network E) (path_of : U → String)
    (plain_500 : Option P) (service : Service (Request M U H (ServerRecvBody S)) (Response P H B) X)
    (req : Request M U H (Unit {0})) (recv : S) (c : CounterVec) (cell : Option (Metrics c.V))
    → let acts = (handle_request net {Q = Q} path_of plain_500 service req recv).1 in
      c.value (get_metrics c (record_all c (metrics acts) cell)).bytes_sent ("server" ∷ [])
      ≡ (c.value (get_metrics c cell).bytes_sent ("server" ∷ []) + sent_bytes (ops acts)) % u64_mod
unfolding handle_request
handle_request-counts {P} Q net path_of plain_500 service req recv c cell =
    let acts = (handle_request net {Q = Q} path_of plain_500 service req recv).1 in
    record_all-sum c bytes_sent ("server" ∷ []) (metrics acts) cell
    ∙ ap (λ (n : ℕ). (c.value (get_metrics c cell).bytes_sent ("server" ∷ []) + n) % u64_mod)
        (ground
          (arith, respond-counted P net plain_500 service (service_request req recv) service.ready))
