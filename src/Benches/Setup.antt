-- ===== src/Benches/Setup.antt =====
-- The set-up of the benchmarks (crates/grpc-quic-benches/src/lib.rs): TLS configurations, the two
-- servers and their clients. tokio's TCP, tonic's server and its channels are parameters.
pub mod Connects
use grpc_quic_rs.Common.{
  ℕ, String, List, [], ◌∷◌, none, some, Option, Result, ok, err, ◌>>=◌, ok_or, push_str, Duration,
  from_millis,
}
use grpc_quic_rs.Transport.Tls.{Rustls, ServerConfig, ClientConfig, TlsConfig, server, client, h3}
use grpc_quic_rs.Transport.Endpoint
use grpc_quic_rs.Transport.Endpoint.{Quinn}
use grpc_quic_rs.Server.Builder
use grpc_quic_rs.Server.Builder.{QuicServer}
use grpc_quic_rs.Client.Channel
use grpc_quic_rs.Client.Channel.{QuicChannel, Addresses}
use grpc_quic_rs.Client.Retry.{Float}
use grpc_quic_rs.Benches.{Panic, unwrap}

module _ (r : Rustls) (trust : r.Cert → Result r.Roots r.E)
    (client_builder : Result (r.Roots → ClientConfig r.Y) r.E) where
  -- Server and client. `trust` is an empty root store with one certificate added.
  unfoldable pub make_tls_configs : Result (TlsConfig r.X r.Y × TlsConfig r.X r.Y) Panic
  make_tls_configs = do
    cert ← unwrap (r.generate_simple_self_signed ("localhost" ∷ "127.0.0.1" ∷ []))
    builder ← unwrap r.server_builder
    server_crypto ← unwrap (r.with_single_cert builder (cert.0 ∷ []) cert.1)
    root_store ← unwrap (trust cert.0)
    with_root_certificates ← unwrap client_builder
    ok (
      server (record server_crypto { alpn_protocols = h3 }),
      client (record (with_root_certificates root_store) { alpn_protocols = h3 }),
    )

-- A `oneshot` channel, by its end.
pub data Oneshot : Type 0 where
  quic_oneshot : Oneshot
  tcp_oneshot : Oneshot

pub record BenchServers (A : Type 0) : Type 0 where
  pub quic_addr : A
  pub tcp_addr : A
  pub quic_shutdown : Oneshot
  pub tcp_shutdown : Oneshot

-- What `setup_servers` spawns, each with the receiver that ends it.
pub data Task (X Y Endpoint Listener : Type 0) : Type 0 where
  quic_task : QuicServer (TlsConfig X Y) → Endpoint → Oneshot → Task X Y Endpoint Listener
  tcp_task : Listener → Oneshot → Task X Y Endpoint Listener

-- `TcpListener`
pub record Tcp (A : Type 0) : Type 1 where
  pub Listener : Type 0
  pub E : Type 0
  pub bind : String → Result Listener E
  pub local_addr : Listener → Result A E

module _ {X Y Q : Type 0} (q : Quinn X Y Q) (tcp : Tcp q.A) (parse : String → Option q.A) where
  open q use {A}

  unfoldable pub setup_servers :
      TlsConfig X Y → Result (BenchServers A × List (Task X Y q.Endpoint tcp.Listener)) Panic
  setup_servers server_tls = do
    any_port ← unwrap (ok_or tt (parse "127.0.0.1:0"))
    quic_ep ← unwrap (Endpoint.server q any_port server_tls)
    qaddr ← unwrap (Endpoint.local_addr q quic_ep)
    listener ← unwrap (tcp.bind "127.0.0.1:0")
    taddr ← unwrap (tcp.local_addr listener)
    ok (
      record {
        quic_addr = qaddr;
        tcp_addr = taddr;
        quic_shutdown = quic_oneshot;
        tcp_shutdown = tcp_oneshot;
      },
      quic_task (Builder.build Builder.builder) quic_ep quic_oneshot
          ∷ tcp_task listener tcp_oneshot
          ∷ [],
    )

-- `send(()).ok()`, and the sleep of the thread.
pub data Action : Type 0 where
  send : Oneshot → Action
  sleep : Duration → Action

abbrev pub shutdown_servers : {A : Type 0} → BenchServers A → List Action
shutdown_servers servers =
    send servers.quic_shutdown ∷ send servers.tcp_shutdown ∷ sleep (from_millis 200) ∷ []

module _ {A C H K : Type 0} (Q : Type 0) (a : Addresses A) (f : Float) (text : A → String) where
  unfoldable pub make_quic_client : A → K → Result (QuicChannel A C H K f.F) Panic
  make_quic_client addr tls = unwrap (
      Channel.connect {Q = Q} a
        (Channel.concurrency_limit 512 (Channel.tls tls (Channel.builder f))) (text addr))

-- `tonic::transport::Endpoint::new` and `connect`.
module _ {A E N Chan : Type 0} (new : String → Result N E) (connect : N → Result Chan E)
    (text : A → String) where
  abbrev pub make_tcp_client : A → Result Chan Panic
  make_tcp_client addr = do
    endpoint ← unwrap (new (push_str "http://" (text addr)))
    unwrap (connect endpoint)
