-- ===== src/Client/Call/Tests/Tasks.antt =====
-- Examples of what calls send, abort and wait for (crates/grpc-quic-client/src/channel.rs).
use grpc_quic_rs.Common.{
  Bytes, ℕ, ◌∷◌, ◌≢◌, length, ready, ◌≤◌, String, [], none, some, Result, ok, err, true, codes,
  io_other, string_display, ◌≡◌, refl,
}
use grpc_quic_rs.Errors.{CoreError, stream_io, request_build}
use grpc_quic_rs.Fixtures.{text_headers, whole_floats}
use grpc_quic_rs.Core.Http.{header_name}
use grpc_quic_rs.Core.Body.Client
use grpc_quic_rs.Core.Body.Client.{ClientRecvBody}
use grpc_quic_rs.Client.Pool.{ready}
use grpc_quic_rs.Client.Retry.{backoff_for}
use grpc_quic_rs.Client.Call.{
  World, Response, H3Request, rpc_future, connect_fn, timeout_at, Outcome,
}
use grpc_quic_rs.Client.Call.Attempts.{gets, sleeps, from}
use grpc_quic_rs.Client.Pool.{send_res, establish}
use grpc_quic_rs.Transport.Tls.{ServerConfig, server}
use grpc_quic_rs.Transport.Endpoint
use grpc_quic_rs.Transport.Endpoint.{Quinn}
use grpc_quic_rs.Core.Body.{RecvStream}
use grpc_quic_rs.Client.Call.Owned.{aborted, spawned, expired_detaches}
use grpc_quic_rs.Client.Call.Role.{sent, wrong_role_is_retried}
use grpc_quic_rs.Client.Call.Sent.{repeat, call_sends}
use grpc_quic_rs.Client.Call.Tests.{flaky, policy, parts, future, pool}

abbrev live : Outcome {A = ℕ} text_headers whole_floats flaky policy 7 "host" (some 9) parts
live = future flaky

abbrev served : Response ℕ text_headers.H (ClientRecvBody ℕ ℕ ℕ)
served = record {
  status = 200;
  headers = text_headers.new;
  body = Client.new 11 (some 1) (some 1) (some 9);
}

-- The call is dropped when all its events have happened.
expired_detaches_example :
    let late =
      timeout_at {A = ℕ} text_headers whole_floats flaky policy 7 "host"
        (some 9)
        parts
        (some 9)
        (some 20)
        live in
    (late.1 ≡ err (request_build "DeadlineExceeded"))
    × (aborted late.0 ≡ [])
    × ((k : ℕ) × (served.body.abort_handle ≡ some k)
        × (length live.0 ≤ 20 → spawned late.0 ≡ k ∷ []))
unfolding rpc_future pool
expired_detaches_example =
    expired_detaches text_headers whole_floats flaky policy 7 "host" (some 9) parts true served 9 20
      refl

-- A stream that has ended.
abbrev ended : RecvStream ℕ text_headers.H String
ended = record {
  poll_recv_data = λ s. (ready (ok none), s);
  poll_recv_trailers = λ s. (ready (ok none), s);
}

call_sends_example :
    (req : H3Request ℕ text_headers.H) × (k : ℕ) × (sent live.0 ≡ repeat k req)
    × (k ≤ gets live.0)
    × (req.method ≡ 1)
    × (req.uri ≡ "https://host/svc/Hello")
    × (text_headers.get_all req.headers (header_name "content-type")
        ≡ codes "application/grpc" ∷ [])
    × (text_headers.get_all req.headers (header_name "te") ≡ codes "trailers" ∷ [])
    × ((name : Bytes)
        → header_name "content-type" ≢ name
        → header_name "te" ≢ name
        → text_headers.get_all req.headers name ≡ text_headers.get_all parts.headers name)
call_sends_example = call_sends text_headers whole_floats flaky policy 7 "host" (some 9) parts true

-- A channel with a server's TLS configuration.
abbrev quinn : Quinn ℕ ℕ String
quinn = record {
  A = ℕ;
  C = ℕ;
  Endpoint = ℕ;
  Crypto = ℕ;
  ClientCrypto = ℕ;
  any_address = 0;
  quic_server_config = λ c. ok 1;
  quic_client_config = λ c. ok 2;
  server = λ crypto addr. ok addr;
  client = λ addr. ok addr;
  set_default_client_config = λ e crypto. e;
  set_server_config = λ e crypto. e;
  accept = λ e. none;
  connect = λ e addr name. ok (ok addr);
  local_addr = λ e. ok e;
  close = λ e code reason. e;
}

abbrev theirs : ServerConfig ℕ
theirs = record { rest = 0; alpn_protocols = []; max_early_data_size = 0 }

abbrev shaken : ℕ → Result ℕ CoreError
shaken c = ok 2

abbrev misused : World ℕ ℕ ℕ text_headers.H ℕ ℕ String String
misused = record flaky {
  pool = λ n.
      send_res
        (establish
          (connect_fn (Endpoint.client quinn) (Endpoint.connect quinn) (server theirs) "host" 7)
          shaken).0;
}

wrong_role_is_retried_example :
    ((future misused).1
      ≡ err (stream_io (io_other "transport error: TLS error: expected client config")))
    × (gets (future misused).0 ≡ 3)
    × (sleeps (future misused).0 ≡ from (backoff_for whole_floats policy) 0 2)
    × (sent (future misused).0 ≡ [])
wrong_role_is_retried_example =
    wrong_role_is_retried text_headers whole_floats quinn misused policy 7 "host" (some 9) parts
      theirs shaken 2 (λ n. refl) refl
