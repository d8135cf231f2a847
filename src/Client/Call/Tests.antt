-- ===== src/Client/Call/Tests.antt =====
-- Examples of calls (crates/grpc-quic-client/src/channel.rs): the first attempt has no connection,
-- the second one is answered; or no attempt has a connection.
mod Tasks
use grpc_quic_rs.Common.{
  zero, suc, ℕ, ◌+◌, ◌*◌, ◌-◌, ◌∷◌, ◌++◌, ◌≢◌, length, ready, ◌≤◌, String, [], none, some, Result,
  ok, err, true, codes, take, from_millis, io_other, ℕ_discrete, string_display, ◌≡◌, ◌⊎◌, refl,
  bytes_discrete, arith,
}
use grpc_quic_rs.Errors.{ClientError, CoreError, closed, stream_io, request_build, h3_stream}
use grpc_quic_rs.Fixtures.{text_headers, whole_floats}
use grpc_quic_rs.Core.Body.Client
use grpc_quic_rs.Core.Body.Client.{ClientRecvBody}
use grpc_quic_rs.Client.Pool.{PoolEntry, ready, reuse}
use grpc_quic_rs.Client.Retry.{RetryPolicy, backoff_for}
use grpc_quic_rs.Client.Timeout.{parse_grpc_timeout}
use grpc_quic_rs.Client.Timeout.Meaning.{parse-conforming}
use grpc_quic_rs.Client.Call.{
  World, Parts, Response, H3Request, rpc_future, call, connect_fn, timeout_at, Outcome,
}
use grpc_quic_rs.Client.Call.Attempts.{gets, sleeps, spawns, from, call_bounded}
use grpc_quic_rs.Client.Call.Pace.{beats, paced, call_paces}
use grpc_quic_rs.Client.Call.Failure.{call_fails, IsFatal, IsLast}
use grpc_quic_rs.Client.Call.Carried.{call_deadline}
use grpc_quic_rs.Client.Call.Pooled.{IsPoolAnswer, received, IsCallError, call_errors}
use grpc_quic_rs.Client.Pool.{send_res, establish}
use grpc_quic_rs.Transport.Tls.{ServerConfig, TlsConfig, server}
use grpc_quic_rs.Transport.Endpoint
use grpc_quic_rs.Transport.Endpoint.{Quinn}
use grpc_quic_rs.Core.Body.{RecvStream}
use grpc_quic_rs.Client.Call.Owned.{aborted, spawned, released, expired_detaches}
use grpc_quic_rs.Client.Call.Role.{sent, wrong_role_is_retried}
use grpc_quic_rs.Client.Call.Sent.{total, repeat, call_sends, call_sleeps_bounded}
use grpc_quic_rs.Client.Call.Stuck.{replay, refused_to_the_end}
use grpc_quic_rs.Client.Pool
use grpc_quic_rs.Client.Pool.System.{System, init, start, later, request}
use grpc_quic_rs.Client.Pool.System.Delivery.{awaiting_is_served}
use grpc_quic_rs.Client.Pool.System.Answers.{first_awaits}

abbrev Pooled : Type 0
Pooled = Result (PoolEntry ℕ ℕ) (ClientError String)

pool : ℕ → Pooled
pool zero = err closed
pool (suc n) = ok (record { quic = 1; h3 = 2 })

abbrev flaky : World ℕ ℕ ℕ text_headers.H ℕ ℕ String String
flaky = record {
  pool = pool;
  build = λ method uri. ok tt;
  send = λ n h3 req. ok 11;
  recv_response = λ n recv. ok (200, text_headers.new);
}

abbrev dead : World ℕ ℕ ℕ text_headers.H ℕ ℕ String String
dead = record flaky { pool = λ n. err closed }

abbrev policy : RetryPolicy ℕ
policy = record {
  max_attempts = 3;
  initial_backoff = from_millis 100;
  backoff_multiplier = 2;
  max_backoff = from_millis 150;
}

abbrev parts : Parts ℕ text_headers.H
parts = record {
  method = 1;
  authority = none;
  path = "/svc/Hello";
  headers = text_headers.insert text_headers.new "grpc-timeout" (codes "2m");
}

abbrev future :
    World ℕ ℕ ℕ text_headers.H ℕ ℕ String String
    → Outcome {A = ℕ} text_headers whole_floats flaky policy 7 "host" (some 9) parts
future w = rpc_future text_headers whole_floats w policy 7 "host" (some 9) parts true

call_bounded_example :
    (gets (future flaky).0 ≤ 3)
    × (spawns (future flaky).0 ≤ 1)
    × ((r : Response ℕ text_headers.H (ClientRecvBody ℕ ℕ ℕ))
        → (future flaky).1 ≡ ok r
        → spawns (future flaky).0 ≡ 1)
call_bounded_example =
    call_bounded text_headers whole_floats flaky policy 7 "host" (some 9) parts true

call_paces_example :
    beats (future dead).0 ≡ paced (backoff_for whole_floats policy) (gets (future dead).0)
call_paces_example = call_paces text_headers whole_floats dead policy 7 "host" (some 9) parts true

call_fails_example :
    IsFatal {A = ℕ} text_headers whole_floats dead policy 7 "host" (some 9) parts closed
    ⊎ ((gets (future dead).0 ≡ 3)
        × IsLast {A = ℕ} text_headers whole_floats dead policy 7 "host"
            (some 9)
            parts
            3
            0
            none
            closed)
unfolding rpc_future
call_fails_example =
    call_fails text_headers whole_floats dead policy 7 "host" (some 9) parts closed refl

abbrev answer : Response ℕ text_headers.H (ClientRecvBody ℕ ℕ ℕ)
answer = record {
  status = 200;
  headers = text_headers.new;
  body = Client.new 11 (some 1) (some 1) (some 2000100);
}

call_deadline_example :
    (k : ℕ) × (recv : ℕ) × (answer.body ≡ Client.new recv (some k) (some k) (some (100 + 2000000)))
unfolding call pool parse_grpc_timeout bytes_discrete
call_deadline_example =
    call_deadline {A = ℕ} text_headers whole_floats flaky policy 7 "host" 100 (λ v. some v) true
      none parts (codes "2m") (codes "2m") 2000000 answer refl refl
      (parse-conforming b'2' [] b'm' 1000000 refl ((omega arith, omega arith), tt) (omega arith))
      refl

-- What the first caller of a pool is sent when its connection fails.
abbrev refused : Pooled
refused = send_res (err closed)

refused-IsPoolAnswer : IsPoolAnswer {A = ℕ} ℕ_discrete ℕ_discrete refused
refused-IsPoolAnswer =
    let (t, st, e) =
      awaiting_is_served (later start (request 7)) 7 0 (first_awaits ℕ_discrete 7) (err closed) in
    received 0 refused (later (later start (request 7)) st) e

abbrev unreachable : World ℕ ℕ ℕ text_headers.H ℕ ℕ String String
unreachable = record flaky { pool = λ n. refused }

abbrev refused_error : ClientError String
refused_error = stream_io (io_other "channel closed")

call_errors_example : IsCallError 3 refused_error
unfolding call rpc_future bytes_discrete parse_grpc_timeout send_res
call_errors_example =
    call_errors text_headers whole_floats unreachable policy 7 "host" (λ n. refused-IsPoolAnswer)
      100 (λ v. some v) true none parts refused_error refl

-- A pool whose entry is open, and a session that its server is closing.
abbrev entry : PoolEntry ℕ ℕ
entry = record { quic = 1; h3 = 2 }

abbrev pooled : System ℕ ℕ ℕ String
pooled = record init { inner = λ a. some (ready entry) }

abbrev going_away : World ℕ ℕ ℕ text_headers.H ℕ ℕ String String
going_away = record flaky { pool = λ n. ok entry; send = λ n h3 req. err (h3_stream "closing") }

refused_to_the_end_example :
    ((future going_away).1 ≡ err (stream_io (io_other "h3 stream error: closing")))
    × (gets (future going_away).0 ≡ 3)
    × ((j : ℕ) → replay ℕ_discrete (take j (future going_away).0) pooled ≡ pooled)
    × (Pool.get_or_connect ℕ_discrete pooled.is_closed 7 pooled.next pooled.inner
        ≡ (pooled.inner, reuse entry))
refused_to_the_end_example =
    refused_to_the_end text_headers whole_floats going_away policy 7 "host" (some 9) parts
      ℕ_discrete pooled entry refl refl (λ n. h3_stream "closing") 2
      (record { answers = λ n. refl; builds = refl; refuses = λ n. refl }) refl
