-- ===== src/Benches/Handshake.antt =====
-- crates/grpc-quic-benches/benches/handshake.rs: what each iteration of criterion does, how many it
-- makes being a parameter, and tonic's channels too.
pub mod Connections
use grpc_quic_rs.Common.{ℕ, zero, suc, String, List, [], ◌∷◌, Result, ok, err, ◌>>=◌, push_str}
use grpc_quic_rs.Benches.{Panic, unwrap}
use grpc_quic_rs.Benches.Setup.{Action, Tcp, make_tls_configs, setup_servers, shutdown_servers}
use grpc_quic_rs.Transport.Tls.{Rustls, ClientConfig, TlsConfig}
use grpc_quic_rs.Transport.Endpoint.{Quinn}
use grpc_quic_rs.Client.Channel
use grpc_quic_rs.Client.Channel.{QuicChannel, Addresses}
use grpc_quic_rs.Client.Retry.{Float}

-- `b.iter`, with what it gives each time; `n` is the number of the first one.
iterations : {X : Type 0} → (ℕ → Result X Panic) → ℕ → ℕ → Result (List X) Panic
iterations once n zero = ok []
iterations once n (suc count) = do x ← once n; rest ← iterations once (suc n) count; ok (x ∷ rest)

-- The channels of both groups, in order, and the shutdown.
pub record Handshakes (K Chan : Type 0) : Type 0 where
  pub quic : List K
  pub tcp : List Chan
  pub shutdown : List Action

-- One iteration of the QUIC group.
connect_quic :
    {A C H K : Type 0} (Q : Type 0) (a : Addresses A) (f : Float)
    → (A → String)
    → K
    → A
    → ℕ
    → Result (QuicChannel A C H K f.F) Panic
connect_quic Q a f text client_tls quic_addr n =
    unwrap (Channel.connect {Q = Q} a (Channel.tls client_tls (Channel.builder f)) (text quic_addr))

-- One iteration of the TCP group; `connect` can give another result each time.
connect_tcp :
    {A Chan N E : Type 0}
    → (A → String)
    → (String → Result N E)
    → (ℕ → N → Result Chan E)
    → A
    → ℕ
    → Result Chan Panic
connect_tcp text new connect tcp_addr n = do
  endpoint ← unwrap (new (push_str "http://" (text tcp_addr)))
  unwrap (connect n endpoint)

module _ {C H Chan N E : Type 0} (Q : Type 0) (r : Rustls) (trust : r.Cert → Result r.Roots r.E)
    (client_builder : Result (r.Roots → ClientConfig r.Y) r.E) (q : Quinn r.X r.Y Q) (tcp : Tcp q.A)
    (a : Addresses q.A) (f : Float) (text : q.A → String) (new : String → Result N E)
    (connect : ℕ → N → Result Chan E) where
  unfoldable pub bench_handshake :
      ℕ → ℕ → Result (Handshakes (QuicChannel q.A C H (TlsConfig r.X r.Y) f.F) Chan) Panic
  unfolding make_tls_configs setup_servers iterations connect_quic connect_tcp
  bench_handshake quic_count tcp_count = do
    (server_tls, client_tls) ← make_tls_configs r trust client_builder
    (servers, tasks) ← setup_servers q tcp a.parse server_tls
    quic ← iterations (connect_quic Q a f text client_tls servers.quic_addr) 0 quic_count
    tcp ← iterations (connect_tcp text new connect servers.tcp_addr) 0 tcp_count
    ok (record { quic = quic; tcp = tcp; shutdown = shutdown_servers servers })
