-- ===== src/Benches/Tests/Groups.antt =====
-- Examples of the handshake and the latency benchmarks
-- (crates/grpc-quic-benches/benches/handshake.rs and quic_latency.rs). An address is its text.
use grpc_quic_rs.Common.{ℕ, String, List, [], ◌∷◌, none, some, ok, ◌≡◌, refl, arith, from_micros}
use grpc_quic_rs.Fixtures.{whole_floats}
use grpc_quic_rs.Benches.{Payload}
use grpc_quic_rs.Benches.Rounds.{Call}
use grpc_quic_rs.Benches.Report.{BenchResult, save_json_or_panic}
use grpc_quic_rs.Benches.Setup.{
  BenchServers, Task, Tcp, shutdown_servers, quic_oneshot, tcp_oneshot,
}
use grpc_quic_rs.Benches.Setup.Connects.{Running}
use grpc_quic_rs.Benches.Handshake.{Handshakes, bench_handshake}
use grpc_quic_rs.Benches.Handshake.Connections.{Ran, unconnected, bench_handshake_lem}
use grpc_quic_rs.Benches.Latencies.{Finished, rounds_of, bench_quic_latency}
use grpc_quic_rs.Benches.Latencies.Run.{Measured, own, bench_quic_latency_lem}
use grpc_quic_rs.Client
use grpc_quic_rs.Client.Channel.{QuicChannel, Addresses}
use grpc_quic_rs.Transport.Tls.{TlsConfig}
use grpc_quic_rs.Transport.Endpoint
use grpc_quic_rs.Transport.Endpoint.{Quinn}
use grpc_quic_rs.Benches.Tests.{
  doubles, histograms, host, disk, rustls, client_builder, trust, client_tls,
}

abbrev quinn : Quinn ℕ ℕ String
quinn = record {
  A = String;
  C = ℕ;
  Endpoint = String;
  Crypto = ℕ;
  ClientCrypto = ℕ;
  any_address = "0.0.0.0:0";
  quic_server_config = λ c. ok c.rest;
  quic_client_config = λ c. ok c.rest;
  server = λ crypto addr. ok "127.0.0.1:4433";
  client = λ addr. ok addr;
  set_default_client_config = λ e crypto. e;
  set_server_config = λ e crypto. e;
  accept = λ e. none;
  connect = λ e addr name. ok (ok 0);
  local_addr = λ e. ok e;
  close = λ e code reason. e;
}

abbrev tcp : Tcp String
tcp = record { Listener = ℕ; E = String; bind = λ s. ok 1; local_addr = λ l. ok "127.0.0.1:8080" }

abbrev addresses : Addresses String
addresses = record { parse = λ s. some s; ip_text = λ a. "127.0.0.1" }

abbrev Channel : Type 0
Channel = QuicChannel String ℕ ℕ (TlsConfig ℕ ℕ) ℕ

abbrev lazy : Channel
lazy =
    unconnected {K = TlsConfig ℕ ℕ} String addresses whole_floats (λ x. x) "127.0.0.1:4433"
      client_tls

-- The three attempts of tonic.
abbrev channels : Handshakes Channel ℕ
channels = record {
  quic = lazy ∷ lazy ∷ [];
  tcp = 0 ∷ 1 ∷ 2 ∷ [];
  shutdown = shutdown_servers {A = String} (record {
    quic_addr = "127.0.0.1:4433";
    tcp_addr = "127.0.0.1:8080";
    quic_shutdown = quic_oneshot;
    tcp_shutdown = tcp_oneshot;
  });
}

bench_handshake_lem_example :
    Ran {C = ℕ} {H = ℕ} {Chan = ℕ} {N = String} {E = String} String rustls trust client_builder
      quinn tcp addresses whole_floats
      (λ x. x)
      (λ uri. ok uri)
      (λ n endpoint. ok n)
      2
      3
      channels
unfolding bench_handshake Client.Channel.connect Endpoint.server
bench_handshake_lem_example =
    bench_handshake_lem String rustls trust client_builder quinn tcp addresses whole_floats (λ x. x)
      (λ uri. ok uri) (λ n endpoint. ok n) (λ x. refl) 2 3 channels refl

abbrev calls : Channel → Payload → List (Call String)
calls client p = ok (from_micros 0, from_micros 12) ∷ ok (from_micros 5, from_micros 25) ∷ []

abbrev quick : Channel
quick = record lazy { concurrency_limit = 512 }

abbrev own_report : ℕ → BenchResult ℕ
own_report =
    own doubles histograms host disk "quic" "quic_latency.json"
      (rounds_of calls (λ size. "now") quick) ([], 0)

abbrev own_reports : List (BenchResult ℕ)
own_reports =
    own_report 64 ∷ own_report 256 ∷ own_report 1024 ∷ own_report 4096 ∷ own_report 16384 ∷ []

abbrev done : Finished ℕ String
done = record {
  reports = own_reports;
  shutdown = channels.shutdown;
  saved = save_json_or_panic disk own_reports "quic_latency.json";
}

bench_quic_latency_lem_example :
    (servers : BenchServers String) × (tasks : List (Task ℕ ℕ String ℕ)) × (client : Channel)
    × Running quinn tcp servers tasks
    × (client.remote ≡ servers.quic_addr)
    × (done.shutdown ≡ shutdown_servers servers)
    × Measured doubles histograms host disk "quic" "quic_latency.json"
        (rounds_of calls (λ size. "now") client)
        ([], 0)
        done
unfolding bench_quic_latency Client.Channel.connect Endpoint.server
bench_quic_latency_lem_example =
    bench_quic_latency_lem String rustls trust client_builder quinn tcp addresses whole_floats
      (λ x. x) doubles histograms host disk (λ size. "now") calls ([], 0) (λ x. refl) refl
      (λ h v. (_, refl)) (λ client size. omega arith) done refl
