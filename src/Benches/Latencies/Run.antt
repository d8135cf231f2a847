-- ===== src/Benches/Latencies/Run.antt =====
-- What the latency benchmarks measure and write (crates/grpc-quic-benches/benches/quic_latency.rs
-- and tcp_latency.rs).
use grpc_quic_rs.Common.{
  ℕ, String, List, [], ◌∷◌, All, map, length, some, Result, ok, >>=-eq-ok, ◌<◌, ◌≡◌, ap, sym, ◌∙◌,
  u64_mod,
}
use grpc_quic_rs.Benches.{ok_inj, Payload, make_payload, payload_sizes}
use grpc_quic_rs.Benches.Latency.{Histograms}
use grpc_quic_rs.Benches.Report.{
  Doubles, BenchResult, Host, Disk, Written, directory, file, save_json_or_panic,
}
use grpc_quic_rs.Benches.Report.Saved.{save_json_or_panic-eq-ok}
use grpc_quic_rs.Benches.Rounds.{Call, Rounds, reports_of}
use grpc_quic_rs.Benches.Rounds.Tally
use grpc_quic_rs.Benches.Rounds.Tally.{Takes, reports_of_lem}
use grpc_quic_rs.Benches.Setup.{
  Action, Tcp, Task, BenchServers, make_tls_configs, setup_servers, make_quic_client,
  shutdown_servers,
}
use grpc_quic_rs.Benches.Setup.Connects.{Running, setup_connects}
use grpc_quic_rs.Benches.Latencies.{
  Finished, rounds_of, latency_report, latencies, bench_quic_latency,
}
use grpc_quic_rs.Transport.Tls.{Rustls, ClientConfig, TlsConfig}
use grpc_quic_rs.Transport.Endpoint.{Quinn}
use grpc_quic_rs.Client.Channel.{QuicChannel, Addresses}
use grpc_quic_rs.Client.Retry.{Float}

module _ {S : Type 0} (d : Doubles) (hs : Histograms d.F) (host : Host) (disk : Disk d.F)
    (protocol filename : String) (rounds : Rounds S) (fresh : hs.Histogram) where
  open disk use {Location, join, to_string_pretty}

  -- The report of a size, from the calls of its own round.
  abbrev pub own : ℕ → BenchResult d.F
  own = Tally.own hs rounds (latency_report d hs host protocol) fresh

  -- What a benchmark leaves behind: one report for each size, in order, each of a histogram of all
  -- the calls of its own round, and of no others; and, if saving does not panic, one file with them.
  pub record Measured (done : Finished d.F Location) : Type 0 where
    pub reports : done.reports ≡ map own payload_sizes
    pub samples :
        All (λ size. (own size).latency.samples ≡ length (rounds.calls size)) payload_sizes
    pub saved :
        (line : String) (writes : List (Written Location))
        → done.saved ≡ ok (line, writes)
        → (out : Location) × (json : String) × (to_string_pretty done.reports ≡ ok json)
          × (writes ≡ directory out ∷ file (join out filename) json ∷ [])

  latencies-Measured :
      hs.new ≡ ok fresh
      → Takes hs
      → All (λ size. length (rounds.calls size) < u64_mod) payload_sizes
      → (shutdown : List Action) (done : Finished d.F Location)
      → latencies d hs host disk protocol filename rounds shutdown fresh ≡ ok done
      → (done.shutdown ≡ shutdown) × Measured done
  unfolding latencies
  latencies-Measured new takes few shutdown done h =
      let (rs, e1, h1) =
        >>=-eq-ok (reports_of hs rounds (latency_report d hs host protocol) payload_sizes fresh) _
          done h in
      let (all, last, counts) =
        reports_of_lem hs rounds (latency_report d hs host protocol) fresh new takes payload_sizes
          few rs.0 rs.1 e1 in
      let end : Finished d.F Location = record {
        reports = rs.0;
        shutdown = shutdown;
        saved = save_json_or_panic disk rs.0 filename;
      } in
      let same : end ≡ done = cc in
      let kept : rs.0 ≡ done.reports = ap (λ x. x.reports) same in
      (
        sym (ap (λ x. x.shutdown) same),
        record {
          reports = sym kept ∙ all;
          samples = counts;
          saved = λ line writes s.
              let (out, json, dir, text, w) =
                save_json_or_panic-eq-ok disk rs.0 filename line writes
                  (ap (λ x. x.saved) same ∙ s) in
              (out, json, ap to_string_pretty (sym kept) ∙ text, w);
        },
      )

module _ {S C H : Type 0} (Q : Type 0) (r : Rustls) (trust : r.Cert → Result r.Roots r.E)
    (client_builder : Result (r.Roots → ClientConfig r.Y) r.E) (q : Quinn r.X r.Y Q) (tcp : Tcp q.A)
    (a : Addresses q.A) (f : Float) (text : q.A → String) (d : Doubles) (hs : Histograms d.F)
    (host : Host) (disk : Disk d.F) (timestamp : ℕ → String)
    (calls : QuicChannel q.A C H (TlsConfig r.X r.Y) f.F → Payload → List (Call S))
    (fresh : hs.Histogram) where
  -- If the QUIC latency benchmark comes to its end, both servers were running and are shut down, and
  -- it has one report for each payload size, in order, each of a histogram of all the calls of its
  -- own round, and of no others: the calls, with a payload of that size, of a client bound to the
  -- address of the QUIC server. If saving does not panic, one file was written, with those reports.
  -- Supposed are addresses that are read back from their texts, a histogram that takes every value,
  -- and rounds of fewer than 2^64 calls.
  pub bench_quic_latency_lem :
      ((x : q.A) → a.parse (text x) ≡ some x)
      → hs.new ≡ ok fresh
      → Takes hs
      → ((client : QuicChannel q.A C H (TlsConfig r.X r.Y) f.F) (size : ℕ)
          → length (calls client (make_payload size)) < u64_mod)
      → (done : Finished d.F disk.Location)
      → bench_quic_latency Q r trust client_builder q tcp a f text d hs host disk timestamp calls
          fresh
        ≡ ok done
      → (servers : BenchServers q.A) × (tasks : List (Task r.X r.Y q.Endpoint tcp.Listener))
        × (client : QuicChannel q.A C H (TlsConfig r.X r.Y) f.F) × Running q tcp servers tasks
        × (client.remote ≡ servers.quic_addr)
        × (done.shutdown ≡ shutdown_servers servers)
        × Measured d hs host disk "quic" "quic_latency.json"
            (rounds_of calls timestamp client)
            fresh
            done
  unfolding bench_quic_latency
  bench_quic_latency_lem read new takes few done h =
      let (tls, e1, h1) = >>=-eq-ok (make_tls_configs r trust client_builder) _ done h in
      let (up, e2, h2) = >>=-eq-ok (setup_servers q tcp a.parse tls.0) _ done h1 in
      let (client, e3, h3) =
        >>=-eq-ok (make_quic_client Q a f text (up.0).quic_addr tls.1) _ done h2 in
      let (running, configs, made) =
        setup_connects Q r trust client_builder q tcp a f text C H tls.0 tls.1 up.0 up.1 e1 e2
          (read (up.0).quic_addr) in
      let own_client = ok_inj _ client (sym made ∙ e3) in
      let (stopped, measured) =
        latencies-Measured d hs host disk "quic" "quic_latency.json"
          (rounds_of calls timestamp client) fresh new takes
          (
            few client 64,
            (few client 256, (few client 1024, (few client 4096, (few client 16384, tt)))),
          )
          (shutdown_servers up.0) done h3 in
      (up.0, up.1, client, running, sym (ap (λ c. c.remote) own_client), stopped, measured)
