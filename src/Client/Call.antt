-- ===== src/Client/Call.antt =====
-- `QuicChannel::call` of crates/grpc-quic-client/src/channel.rs: one call, with its attempts. What
-- the pool, h3 and the server answer is a parameter, for each attempt by its number. The channel
-- `err_tx` and the task that an attempt makes are named by that number as well.
pub mod Rounds
pub mod Attempts
pub mod Failure
pub mod Carried
pub mod Pooled
pub mod Stuck
pub mod Owned
pub mod Role
pub mod Sent
pub mod Pace
mod Tests
use grpc_quic_rs.Common.{
  ℕ, zero, suc, ◌+◌, String, List, [], ◌∷◌, ◌++◌, Option, none, some, Bool, true, false, Result, ok,
  err, ◌>>=◌, map_err, Bytes, codes, Duration, Display, to_string, push_str, io_other, unwrap_or,
  take,
}
use grpc_quic_rs.Core.Body.Client
use grpc_quic_rs.Core.Body.Client.{ClientRecvBody}
use grpc_quic_rs.Core.Http.{HeaderMap}
use grpc_quic_rs.Errors.{
  TransportError, ClientError, transport, retries_exhausted, closed, stream_io, request_build,
  CoreError, core_error_display,
}
use grpc_quic_rs.Metrics.{Record, reconnect, request, stream}
use grpc_quic_rs.Client.Pool.{PoolEntry}
use grpc_quic_rs.Client.Retry.{Float, RetryPolicy, backoff_for}
use grpc_quic_rs.Client.Timeout.{parse_grpc_timeout}

-- The parts of the caller's request, without its body.
pub record Parts (M H : Type 0) : Type 0 where
  pub method : M
  pub authority : Option String
  pub path : String
  pub headers : H

-- The request that is sent over HTTP/3.
pub record H3Request (M H : Type 0) : Type 0 where
  pub method : M
  pub uri : String
  pub headers : H

pub record Response (T H B : Type 0) : Type 0 where
  pub status : T
  pub headers : H
  pub body : B

-- What a call does.
pub data Event (A M H : Type 0) : Type 0 where
  metric : Record → Event A M H
  sleep : Duration → Event A M H
  get_or_connect : A → Event A M H
  invalidate : A → Event A M H
  send_request : H3Request M H → Event A M H
  spawn_forward : ℕ → Event A M H
  abort_forward : ℕ → Event A M H

-- The answers to one call, by the number of the attempt: of the pool, of the builder of a request,
-- of `send_request` (a stream's receiving half) and of `recv_response`.
pub record World (C H3 M H S T E Q : Type 0) : Type 0 where
  pub pool : ℕ → Result (PoolEntry C H3) (ClientError Q)
  pub build : M → String → Result (Unit {0}) String
  pub send : ℕ → H3 → H3Request M H → Result S CoreError
  pub recv_response : ℕ → S → Result (T × H) E

-- `get_or_connect`'s argument: an endpoint of its own for each connection. `?` converts the errors.
abbrev connect_fn :
    {A C K L Q : Type 0}
    → (K → Result L (TransportError Q))
    → (L → A → String → Result C (TransportError Q))
    → K
    → String
    → A
    → Result C (ClientError Q)
connect_fn client connect tls_config server_name addr = do
  endpoint ← map_err transport (client tls_config)
  map_err transport (connect endpoint addr server_name)

-- The headers of the request over HTTP/3.
pub call_headers : (m : HeaderMap) → m.H → m.H
call_headers m original_headers =
    m.insert (m.insert original_headers "content-type" (codes "application/grpc")) "te"
      (codes "trailers")

abbrev pub call_uri : String → String → String
call_uri authority path = push_str "https://" (push_str authority path)

-- What was done, before what is done next.
abbrev pub then : {X Y : Type 0} → List X → List X × Y → List X × Y
then done (rest, res) = (done ++ rest, res)

module _ {A C H3 M S T E Q : Type 0} ⦃d : Display E⦄ (m : HeaderMap) (f : Float)
    (w : World C H3 M m.H S T E Q) (retry : RetryPolicy f.F) (remote : A) (server_name : String)
    (deadline : Option ℕ) (parts : Parts M m.H) where
  open m use {H}

  abbrev pub Outcome : Type 0
  Outcome = List (Event A M H) × Result (Response T H (ClientRecvBody S ℕ ℕ)) (ClientError Q)

  -- Before all attempts but the first.
  pub pause : ℕ → List (Event A M H)
  pause zero = []
  pause (suc n) = metric reconnect ∷ sleep (backoff_for f retry n) ∷ []

  unfoldable pub h3_request : H3Request M H
  unfolding call_headers
  h3_request = record {
    method = parts.method;
    uri = call_uri (unwrap_or server_name parts.authority) parts.path;
    headers = call_headers m parts.headers;
  }

  -- `recv_response`, after the forwarding task was spawned.
  on_response : ℕ → S → Result (T × H) E → Outcome
  on_response n recv (ok (status, headers)) = (
    [],
    ok (record {
      status = status;
      headers = headers;
      body = Client.new recv (some n) (some n) deadline;
    }),
  )
  on_response n recv (err e) = (abort_forward n ∷ [], err (stream_io (io_other (to_string e))))

  -- `again` is the rest of the loop, with its `last_error`.
  on_stream : ℕ → (Option (ClientError Q) → Outcome) → Result S CoreError → Outcome
  unfolding on_response
  on_stream n again (ok recv) =
      then (metric (stream "client") ∷ spawn_forward n ∷ [])
        (on_response n recv (w.recv_response n recv))
  on_stream n again (err e) =
      then (invalidate remote ∷ []) (again (some (stream_io (io_other (to_string e)))))

  on_built :
      ℕ → (Option (ClientError Q) → Outcome) → PoolEntry C H3 → Result (Unit {0}) String → Outcome
  unfolding on_stream h3_request
  on_built n again entry (ok _) =
      then (send_request h3_request ∷ []) (on_stream n again (w.send n entry.h3 h3_request))
  on_built n again entry (err e) = ([], err (request_build e))

  pub on_entry :
      ℕ → (Option (ClientError Q) → Outcome) → Result (PoolEntry C H3) (ClientError Q) → Outcome
  unfolding on_built h3_request
  on_entry n again (ok entry) =
      then (metric (request "client" parts.path) ∷ [])
        (on_built n again entry (w.build parts.method h3_request.uri))
  on_entry n again (err e) = then (invalidate remote ∷ []) (again (some e))

  -- The loop: the number of attempts left, the number of this one, `last_error`.
  pub attempts : ℕ → ℕ → Option (ClientError Q) → Outcome
  unfolding pause on_entry
  attempts zero n last_error =
      ([], err (unwrap_or (retries_exhausted retry.max_attempts "no error captured") last_error))
  attempts (suc left) n last_error =
      then (pause n ++ get_or_connect remote ∷ []) (on_entry n (attempts left (suc n)) (w.pool n))

  -- `rpc_future`, which begins with a permit of the semaphore, if that is not closed.
  unfoldable pub rpc_future : Bool → Outcome
  unfolding attempts
  rpc_future false = ([], err closed)
  rpc_future true = attempts retry.max_attempts 0 none

  -- `timeout_at`: a future that is dropped at its deadline has done a part of its work.
  pub timeout_at : Option ℕ → Option ℕ → Outcome → Outcome
  timeout_at none expired future = future
  timeout_at (some dl) none future = future
  timeout_at (some dl) (some n) (events, res) =
      (take n events, err (request_build "DeadlineExceeded"))

-- The deadline of a call that starts at `now`; `to_str` is that of `HeaderValue`.
deadline_of : ℕ → (Bytes → Option Bytes) → Option Bytes → Option ℕ
deadline_of now to_str none = none
deadline_of now to_str (some timeout_val) = elim (to_str timeout_val) [
  | none ↦ none
  | some timeout_str ↦ elim (parse_grpc_timeout timeout_str) [
    | none ↦ none
    | some d ↦ some (now + d)
  ]
]

module _ {A C H3 M S T E Q : Type 0} ⦃d : Display E⦄ (m : HeaderMap) (f : Float)
    (w : World C H3 M m.H S T E Q) (retry : RetryPolicy f.F) (remote : A)
    (server_name : String) where
  -- `call`, at the instant `now`. `permit` says whether the semaphore gives one, and `expired` after
  -- how many of its events the deadline, if there is one, drops the future.
  unfoldable pub call :
      (ℕ
        → (Bytes → Option Bytes)
        → Bool
        → Option ℕ
        → Parts M m.H
        → List (Event A M m.H) × Result (Response T m.H (ClientRecvBody S ℕ ℕ)) (ClientError Q))
  unfolding deadline_of timeout_at rpc_future
  call now to_str permit expired parts =
      let deadline = deadline_of now to_str (m.get parts.headers "grpc-timeout") in
      timeout_at m f w retry remote server_name deadline parts deadline expired
        (rpc_future m f w retry remote server_name deadline parts permit)
