-- ===== src/Benches/Tests.antt =====
-- Examples of the benchmarks (crates/grpc-quic-benches): a histogram is the list of its values.
mod Groups
use grpc_quic_rs.Common.{
  ℕ, ◌+◌, ◌*◌, ◌/◌, ◌-◌, min, true, String, List, [], ◌∷◌, All, map, none, some, Result, ok, ◌≡◌,
  refl, u64_mod, arith, from_micros,
}
use grpc_quic_rs.Fixtures.{whole_floats}
use grpc_quic_rs.Transport.Tls.{Rustls, ServerConfig, ClientConfig, TlsConfig, server, client, h3}
use grpc_quic_rs.Transport.Endpoint
use grpc_quic_rs.Transport.Endpoint.{Quinn}
use grpc_quic_rs.Client.Channel.{Addresses}
use grpc_quic_rs.Client.Pool
use grpc_quic_rs.Client.Retry
use grpc_quic_rs.Server.Builder
use grpc_quic_rs.Benches.{concurrency}
use grpc_quic_rs.Benches.Latency.{Histograms}
use grpc_quic_rs.Benches.Report.{Doubles, Host}
use grpc_quic_rs.Benches.Setup.{
  make_tls_configs, setup_servers, make_quic_client, BenchServers, Task, quic_task, tcp_task, Tcp,
  quic_oneshot, tcp_oneshot,
}
use grpc_quic_rs.Benches.Setup.Connects.{Running, Trusted, setup_connects}
use grpc_quic_rs.Benches.Rounds.{Rounds}
use grpc_quic_rs.Benches.Loss.{Done, sections}
use grpc_quic_rs.Benches.Loss.Run.{Files, sections_lem}
use grpc_quic_rs.Benches.Report.{Disk, directory, file, save_json_or_panic}
use grpc_quic_rs.Benches.Loss.Reports.{own}

abbrev doubles : Doubles
doubles = record {
  F = ℕ;
  of_u64 = λ n. n;
  div = λ a b. a / b;
  mul = λ a b. a * b;
  gt = λ a b. true;
}

new_len : (h : List ℕ × ℕ) → ◌≡◌ {A = Result (List ℕ × ℕ) (Unit {0})} (ok ([], 0)) (ok h) → h.1 ≡ 0
new_len h e = cc

value_len :
    (h k : List ℕ × ℕ) (v : ℕ)
    → ◌≡◌ {A = Result (List ℕ × ℕ) (Unit {0})} (ok (v ∷ h.0, min (h.1 + 1) (u64_mod - 1))) (ok k)
    → k.1 ≡ min (h.1 + 1) (u64_mod - 1)
value_len h k v e = cc

-- The values and their count.
abbrev histograms : Histograms ℕ
histograms = record {
  Histogram = List ℕ × ℕ;
  E = Unit {0};
  new = ok ([], 0);
  record_value = λ h v. ok (v ∷ h.0, min (h.1 + 1) (u64_mod - 1));
  value_at_percentile = λ h p. 7;
  mean = λ h. 7;
  lowest = λ h. 7;
  highest = λ h. 7;
  len = λ h. h.1;
  len-new = new_len;
  len-record_value = value_len;
}

abbrev host : Host
host = record { github_sha = some "abc"; git = none; from_utf8 = λ b. none; trim = λ s. s }

abbrev disk : Disk ℕ
disk = record {
  Location = String;
  E = String;
  manifest_dir = "/repo/crates/benches";
  parent = λ p. some "/repo";
  join = λ p name. name;
  display = λ p. p;
  to_string_pretty = λ reports. ok "[]";
  create_dir_all = λ p. ok tt;
  write = λ p text. ok tt;
}

abbrev config : ServerConfig ℕ
config = record { rest = 5; alpn_protocols = []; max_early_data_size = 0 }

abbrev rustls : Rustls
rustls = record {
  X = ℕ;
  Y = ℕ;
  Cert = ℕ;
  Key = ℕ;
  Roots = ℕ;
  Verifier = ℕ;
  E = String;
  display = λ e. e;
  Builder = ℕ;
  server_builder = ok 0;
  with_single_cert = λ b certs key. ok config;
  with_root_certificates = λ roots. record { rest = roots; alpn_protocols = [] };
  with_custom_certificate_verifier = λ v. record { rest = 1; alpn_protocols = [] };
  webpki_roots = 0;
  generate_simple_self_signed = λ names. ok (1, 2);
}

abbrev client_builder : Result (ℕ → ClientConfig ℕ) String
client_builder = ok (λ roots. record { rest = roots; alpn_protocols = [] })

abbrev trust : ℕ → Result ℕ String
trust cert = ok cert

abbrev client_tls : TlsConfig ℕ ℕ
client_tls = client (record { rest = 1; alpn_protocols = h3 })
