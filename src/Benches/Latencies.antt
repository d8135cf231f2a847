-- ===== src/Benches/Latencies.antt =====
-- crates/grpc-quic-benches/benches/quic_latency.rs and tcp_latency.rs: the latency of one call at
-- a time, for payloads of several sizes. criterion is a parameter: the calls that it has a client
-- make with a payload.
pub mod Run
use grpc_quic_rs.Common.{ℕ, String, List, [], ◌∷◌, Result, ok, err, ◌>>=◌}
use grpc_quic_rs.Benches.{Panic, Payload, make_payload, payload_sizes}
use grpc_quic_rs.Benches.Latency.{Histograms}
use grpc_quic_rs.Benches.Report
use grpc_quic_rs.Benches.Report.{Doubles, BenchResult, Host, Disk, Written, save_json_or_panic}
use grpc_quic_rs.Benches.Rounds.{Call, Rounds, reports_of}
use grpc_quic_rs.Benches.Setup.{
  Action, Tcp, make_tls_configs, setup_servers, make_quic_client, make_tcp_client, shutdown_servers,
}
use grpc_quic_rs.Transport.Tls.{Rustls, ClientConfig, TlsConfig}
use grpc_quic_rs.Transport.Endpoint.{Quinn}
use grpc_quic_rs.Client.Channel.{QuicChannel, Addresses}
use grpc_quic_rs.Client.Retry.{Float}

-- What a benchmark leaves behind: its reports, the shutdown, and what comes of saving, which
-- follows it.
pub record Finished (F L : Type 0) : Type 0 where
  pub reports : List (BenchResult F)
  pub shutdown : List Action
  pub saved : Result (String × List (Written L)) Panic

-- The rounds of a client: criterion's calls of it, with the payload of each size.
abbrev pub rounds_of :
    {Chan S : Type 0} → (Chan → Payload → List (Call S)) → (ℕ → String) → Chan → Rounds S
rounds_of calls timestamp client = record {
  calls = λ size. calls client (make_payload size);
  timestamp = timestamp;
}

module _ (d : Doubles) (hs : Histograms d.F) (host : Host) where
  -- The report of a size.
  abbrev pub latency_report : String → ℕ → String → hs.Histogram → BenchResult d.F
  latency_report protocol size now hist = Report.new d hs host now protocol "latency" 1 0 size hist

  -- From the loop over the sizes on. The result of the warm-up call before it is thrown away, and
  -- nothing is recorded there.
  unfoldable pub latencies :
      {S : Type 0}
      → (disk : Disk d.F) → String
      → String
      → Rounds S
      → List Action
      → hs.Histogram
      → Result (Finished d.F disk.Location) Panic
  unfolding reports_of
  latencies disk protocol filename rounds shutdown h = do
    (reports, last) ← reports_of hs rounds (latency_report protocol) payload_sizes h
    ok (record {
      reports = reports;
      shutdown = shutdown;
      saved = save_json_or_panic disk reports filename;
    })

module _ {S : Type 0} (Q : Type 0) (r : Rustls) (trust : r.Cert → Result r.Roots r.E)
    (client_builder : Result (r.Roots → ClientConfig r.Y) r.E) (q : Quinn r.X r.Y Q) (tcp : Tcp q.A)
    (a : Addresses q.A) (f : Float) (text : q.A → String) (d : Doubles) (hs : Histograms d.F)
    (host : Host) (disk : Disk d.F) (timestamp : ℕ → String) where
  unfoldable pub bench_quic_latency :
      {C H : Type 0}
      → (QuicChannel q.A C H (TlsConfig r.X r.Y) f.F → Payload → List (Call S))
      → hs.Histogram
      → Result (Finished d.F disk.Location) Panic
  unfolding latencies make_tls_configs setup_servers make_quic_client
  bench_quic_latency calls h = do
    (server_tls, client_tls) ← make_tls_configs r trust client_builder
    (servers, tasks) ← setup_servers q tcp a.parse server_tls
    quic_client ← make_quic_client Q a f text servers.quic_addr client_tls
    latencies d hs host disk "quic" "quic_latency.json" (rounds_of calls timestamp quic_client)
        (shutdown_servers servers) h

  unfoldable pub bench_tcp_latency :
      {Chan N E : Type 0}
      → (String → Result N E)
      → (N → Result Chan E)
      → (Chan → Payload → List (Call S))
      → hs.Histogram
      → Result (Finished d.F disk.Location) Panic
  unfolding latencies make_tls_configs setup_servers
  bench_tcp_latency new connect calls h = do
    (server_tls, client_tls) ← make_tls_configs r trust client_builder
    (servers, tasks) ← setup_servers q tcp a.parse server_tls
    tcp_client ← make_tcp_client new connect text servers.tcp_addr
    latencies d hs host disk "tcp" "tcp_latency.json" (rounds_of calls timestamp tcp_client)
        (shutdown_servers servers) h
