-- ===== src/Benches/Loss.antt =====
-- crates/grpc-quic-benches/benches/loss_sim.rs: a section, which is run once for QUIC and once for
-- TCP, and the benchmark. criterion is a parameter.
pub mod Reports
pub mod Run
use grpc_quic_rs.Common.{
  ◌++◌, ℕ, String, List, [], ◌∷◌, Option, none, some, Result, ok, err, ◌>>=◌, Duration,
}
use grpc_quic_rs.Benches.{Panic, panicked, concurrency}
use grpc_quic_rs.Benches.Latency.{Histograms}
use grpc_quic_rs.Benches.Rounds.{Rounds, reports_of}
use grpc_quic_rs.Benches.Report
use grpc_quic_rs.Transport.Tls.{Rustls, ClientConfig, TlsConfig}
use grpc_quic_rs.Transport.Endpoint.{Quinn}
use grpc_quic_rs.Client.Channel.{QuicChannel, Addresses}
use grpc_quic_rs.Client.Retry.{Float}
use grpc_quic_rs.Benches.Setup.{
  Action, Tcp, make_tls_configs, setup_servers, make_quic_client, make_tcp_client, shutdown_servers,
}
use grpc_quic_rs.Benches.Report.{Doubles, BenchResult, Host, Disk, Written, save_json_or_panic}

abbrev pub payload_size : ℕ
payload_size = 4096

-- `LOSS_PERCENT`, as it is parsed.
abbrev loss_percent : Option ℕ → ℕ
loss_percent (some loss) = loss
loss_percent none = 5

module _ (d : Doubles) (hs : Histograms d.F) (host : Host) (protocol : String) (loss : ℕ) where
  open hs use {Histogram}

  -- The report of a number of concurrent calls.
  abbrev pub loss_report : ℕ → String → Histogram → BenchResult d.F
  loss_report conc now hist =
      Report.new d hs host now protocol "loss_sim" conc loss payload_size hist

  unfoldable pub section :
      {S : Type 0} → Rounds S → Histogram → Result (List (BenchResult d.F) × Histogram) Panic
  unfolding reports_of
  section rounds h = reports_of hs rounds loss_report concurrency h

-- What the benchmark leaves behind: the reports, what it has asked of the file system, and the
-- shutdown.
pub record Done (F L : Type 0) : Type 0 where
  pub quic_reports : List (BenchResult F)
  pub tcp_reports : List (BenchResult F)
  pub written : List (Written L)
  pub shutdown : List Action

-- The two sections, over one histogram. `quic` and `tcp` are what criterion has the clients do.
module _ {S U : Type 0} (d : Doubles) (hs : Histograms d.F) (host : Host) (disk : Disk d.F)
    (loss : ℕ) where
  unfoldable pub sections :
      Rounds S → Rounds U → List Action → hs.Histogram → Result (Done d.F disk.Location) Panic
  unfolding section
  sections quic tcp shutdown h = do
    (quic_reports, rest) ← section d hs host "quic" loss quic h
    (_, quic_written) ← save_json_or_panic disk quic_reports "quic_loss.json"
    (tcp_reports, last) ← section d hs host "tcp" loss tcp rest
    (_, tcp_written) ← save_json_or_panic disk tcp_reports "tcp_loss.json"
    ok (record {
      quic_reports = quic_reports;
      tcp_reports = tcp_reports;
      written = quic_written ++ tcp_written;
      shutdown = shutdown;
    })

module _ {S U C H Chan N E : Type 0} (Q : Type 0) (r : Rustls) (trust : r.Cert → Result r.Roots r.E)
    (client_builder : Result (r.Roots → ClientConfig r.Y) r.E) (q : Quinn r.X r.Y Q) (tcp : Tcp q.A)
    (a : Addresses q.A) (f : Float) (text : q.A → String) (new : String → Result N E)
    (connect : N → Result Chan E) (d : Doubles) (hs : Histograms d.F) (host : Host)
    (disk : Disk d.F) where
  -- `bench_loss`. The results of the warm-up calls are thrown away, and nothing is recorded there.
  abbrev bench_loss :
      Option ℕ
      → (QuicChannel q.A C H (TlsConfig r.X r.Y) f.F → Rounds S)
      → (Chan → Rounds U)
      → hs.Histogram
      → Result (Done d.F disk.Location) Panic
  unfolding sections make_tls_configs setup_servers make_quic_client
  bench_loss loss quic tcp_rounds h = do
    (server_tls, client_tls) ← make_tls_configs r trust client_builder
    (servers, tasks) ← setup_servers q tcp a.parse server_tls
    quic_client ← make_quic_client Q a f text servers.quic_addr client_tls
    tcp_client ← make_tcp_client new connect text servers.tcp_addr
    sections d hs host disk (loss_percent loss) (quic quic_client) (tcp_rounds tcp_client)
        (shutdown_servers servers) h
