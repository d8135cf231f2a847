-- ===== src/Client/Call/Carried.antt =====
-- What a call's request and response carry: the headers and the deadline (`QuicChannel::call` of
-- crates/grpc-quic-client/src/channel.rs).
use grpc_quic_rs.Common.{
  [], ◌∷◌, ℕ, suc, ◌+◌, String, Option, none, some, Bool, Bytes, codes, true, false, Result, ok,
  Duration, Display, to_string, io_other, ◌≡◌, ◌≢◌, arith, ap, sym, ◌∙◌,
}
use grpc_quic_rs.Core.Body.Client.{ClientRecvBody}
use grpc_quic_rs.Core.Body.Client
use grpc_quic_rs.Core.Http.{HeaderMap, header_name}
use grpc_quic_rs.Errors.{ClientError, stream_io, core_error_display}
use grpc_quic_rs.Client.Pool.{PoolEntry}
use grpc_quic_rs.Client.Timeout.{parse_grpc_timeout}
use grpc_quic_rs.Client.Retry.{Float, RetryPolicy}
use grpc_quic_rs.Client.Call.Attempts.{opened_counts}
use grpc_quic_rs.Client.Call.Rounds.{
  ResultOf, Round, unconnected, unbuilt, unsent, unanswered, answered, loop, start_of, sent_request,
  loop_induction,
}
use grpc_quic_rs.Client.Call.{
  Parts, call_headers, World, Response, Outcome, deadline_of, timeout_at, call, then, attempts,
  rpc_future,
}

content_ne_te : ¬ (header_name "content-type" ≡ header_name "te")
content_ne_te e = absurd (cc)

-- A request over HTTP/3 has the caller's headers, with all their values, except that its content
-- type is that of gRPC and that it says it takes trailers.
pub call_headers_lem :
    (m : HeaderMap) (headers : m.H)
    → (m.get_all (call_headers m headers) (header_name "content-type")
        ≡ codes "application/grpc" ∷ [])
      × (m.get_all (call_headers m headers) (header_name "te") ≡ codes "trailers" ∷ [])
      × ((name : Bytes)
          → header_name "content-type" ≢ name
          → header_name "te" ≢ name
          → m.get_all (call_headers m headers) name ≡ m.get_all headers name)
unfolding call_headers
call_headers_lem m headers = (
  m.get_all-insert_other _ "te" (header_name "content-type") _ (λ e. content_ne_te (sym e))
      ∙ m.get_all-insert_self _ "content-type" _,
  m.get_all-insert_self _ "te" _,
  λ name h k.
      m.get_all-insert_other _ "te" name _ k ∙ m.get_all-insert_other _ "content-type" name _ h,
)

module _ {A C H3 M S T E Q : Type 0} ⦃d : Display E⦄ (m : HeaderMap) (f : Float)
    (w : World C H3 M m.H S T E Q) (retry : RetryPolicy f.F) (remote : A) (server_name : String)
    (deadline : Option ℕ) (parts : Parts M m.H) where
  abbrev Out : Type 0
  Out = ResultOf m f w retry remote server_name deadline parts

  abbrev run : ℕ → ℕ → Option (ClientError Q) → Out
  run = loop m f w retry remote server_name deadline parts

  abbrev IsRound : (n : ℕ) → (Option (ClientError Q) → Out) → Out → Type 0
  IsRound = Round m f w retry remote server_name deadline parts

  abbrev opened : ℕ → Out → Out
  opened n = then (start_of m f w retry remote server_name deadline parts n)

  -- Where a response comes from: an attempt whose request h3 sent, and whose server answered.
  pub record IsFrom (r : Response T m.H (ClientRecvBody S ℕ ℕ)) : Type 0 where
    pub attempt : ℕ
    pub entry : PoolEntry C H3
    pub recv : S
    pub sends :
        w.send attempt entry.h3 (sent_request m f w retry remote server_name deadline parts)
        ≡ ok recv
    pub answers : w.recv_response attempt recv ≡ ok (r.status, r.headers)
    pub reads : r.body ≡ Client.new recv (some attempt) (some attempt) deadline

  abbrev IsFound : ℕ → ℕ → Option (ClientError Q) → Out → Type 0
  IsFound left n last o = (r : Response T m.H (ClientRecvBody S ℕ ℕ)) → o.1 ≡ ok r → IsFrom r

  same :
      (x y : Response T m.H (ClientRecvBody S ℕ ℕ))
      → ◌≡◌ {A = Result (Response T m.H (ClientRecvBody S ℕ ℕ)) (ClientError Q)} (ok x) (ok y)
      → x ≡ y
  same x y h = cc

  IsFound-round :
      (left n : ℕ) (o : Out)
      → IsRound n (run left (suc n)) o
      → ((e : Option (ClientError Q)) → IsFound left (suc n) e (run left (suc n) e))
      → IsFound left n none o
  IsFound-round left n _ (unconnected x p) h = h (some x)
  IsFound-round left n _ (unbuilt x p) h = λ r q. absurd (cc)
  IsFound-round left n _ (unsent entry x p) h = h (some (stream_io (io_other (to_string x))))
  IsFound-round left n _ (unanswered recv x p) h = λ r q. absurd (cc)
  IsFound-round left n _ (answered entry recv status headers p q) h = λ r e. record {
    attempt = n;
    entry = entry;
    recv = recv;
    sends = p;
    answers = q ∙ ap ok (ap (λ x. (x.status, x.headers)) (same _ r e));
    reads = sym (ap (λ x. x.body) (same _ r e));
  }

  found : (left n : ℕ) (last : Option (ClientError Q)) → IsFound left n last (run left n last)
  unfolding attempts
  found =
      loop_induction m f w retry remote server_name deadline parts IsFound
        (λ n last r q. absurd (cc))
        (λ left n last o round h r q.
          let (cg, cs, ce) = opened_counts m f w retry remote server_name deadline parts n o in
          IsFound-round left n o round h r (sym ce ∙ q))

  pub rpc_future-IsFrom :
      (permit : Bool) (r : Response T m.H (ClientRecvBody S ℕ ℕ))
      → (rpc_future m f w retry remote server_name deadline parts permit).1 ≡ ok r
      → IsFrom r
  unfolding rpc_future
  rpc_future-IsFrom false r q = absurd (cc)
  rpc_future-IsFrom true r q = found retry.max_attempts 0 none r q

  pub rpc_future_bound :
      (permit : Bool) (r : Response T m.H (ClientRecvBody S ℕ ℕ))
      → (rpc_future m f w retry remote server_name deadline parts permit).1 ≡ ok r
      → (k : ℕ) × (recv : S) × (r.body ≡ Client.new recv (some k) (some k) deadline)
  rpc_future_bound permit r q =
      let it = rpc_future-IsFrom permit r q in (it.attempt, it.recv, it.reads)

module _ {A C H3 M S T E Q : Type 0} ⦃d : Display E⦄ (m : HeaderMap) (f : Float)
    (w : World C H3 M m.H S T E Q) (retry : RetryPolicy f.F) (remote : A)
    (server_name : String) where
  timeout_at-eq-ok :
      (dl expired : Option ℕ) (parts : Parts M m.H)
      (o : Outcome m f w retry remote server_name dl parts)
      (r : Response T m.H (ClientRecvBody S ℕ ℕ))
      → (timeout_at m f w retry remote server_name dl parts dl expired o).1 ≡ ok r
      → o.1 ≡ ok r
  unfolding timeout_at
  timeout_at-eq-ok none expired parts o r h = h
  timeout_at-eq-ok (some dl) none parts o r h = h
  timeout_at-eq-ok (some dl) (some n) parts o r h = absurd (cc)

  -- A response to a call comes from one of its attempts.
  pub call-IsFrom :
      (now : ℕ) (to_str : Bytes → Option Bytes) (permit : Bool) (expired : Option ℕ)
      (parts : Parts M m.H) (r : Response T m.H (ClientRecvBody S ℕ ℕ))
      → (call m f w retry remote server_name now to_str permit expired parts).1 ≡ ok r
      → (dl : Option ℕ) × IsFrom m f w retry remote server_name dl parts r
  unfolding call
  call-IsFrom now to_str permit expired parts r h =
      let dl = deadline_of now to_str (m.get parts.headers "grpc-timeout") in
      (
        dl,
        rpc_future-IsFrom m f w retry remote server_name dl parts permit r
            (timeout_at-eq-ok dl expired parts _ r h),
      )

  -- If the request has a `grpc-timeout` header that can be read, and there is a response, its body
  -- ends the call at the instant of the call plus that time, is told of the errors of the attempt's
  -- forwarding task, and can abort it.
  pub call_deadline :
      (now : ℕ) (to_str : Bytes → Option Bytes) (permit : Bool) (expired : Option ℕ)
      (parts : Parts M m.H) (value text : Bytes) (timeout : Duration)
      (r : Response T m.H (ClientRecvBody S ℕ ℕ))
      → m.get parts.headers "grpc-timeout" ≡ some value
      → to_str value ≡ some text
      → parse_grpc_timeout text ≡ some timeout
      → (call m f w retry remote server_name now to_str permit expired parts).1 ≡ ok r
      → (k : ℕ) × (recv : S) × (r.body ≡ Client.new recv (some k) (some k) (some (now + timeout)))
  unfolding call deadline_of
  call_deadline now to_str permit expired parts value text timeout r h1 h2 h3 h4 =
      let dl : deadline_of now to_str (m.get parts.headers "grpc-timeout") ≡ some (now + timeout) =
        ground arith in
      let (k, recv, e) =
        rpc_future_bound m f w retry remote server_name _ parts permit r
          (timeout_at-eq-ok _ expired parts _ r h4) in
      (k, recv, e ∙ ap (Client.new recv (some k) (some k)) dl)
