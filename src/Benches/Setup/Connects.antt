-- ===== src/Benches/Setup/Connects.antt =====
-- How the benchmarks' clients and servers meet (crates/grpc-quic-benches/src/lib.rs).
use grpc_quic_rs.Common.{
  String, List, [], ◌∷◌, some, Option, Result, ok, >>=-eq-ok, map_err-eq-ok, ok_or, ◌≡◌, refl, ap,
  from_millis, ◌∙◌, sym,
}
use grpc_quic_rs.Errors.{io}
use grpc_quic_rs.Transport.Tls.{Rustls, ServerConfig, ClientConfig, TlsConfig, server, client, h3}
use grpc_quic_rs.Transport.Endpoint
use grpc_quic_rs.Transport.Endpoint.{Quinn}
use grpc_quic_rs.Server.Builder
use grpc_quic_rs.Client.Channel
use grpc_quic_rs.Client.Channel.{QuicChannel, Addresses}
use grpc_quic_rs.Client.Channel.Connect.{connect_literal}
use grpc_quic_rs.Client.Pool
use grpc_quic_rs.Client.Retry
use grpc_quic_rs.Client.Retry.{Float}
use grpc_quic_rs.Benches.{unwrap-eq-ok, unwrap}
use grpc_quic_rs.Benches.Setup.{
  make_tls_configs, BenchServers, Task, quic_task, tcp_task, Tcp, setup_servers, shutdown_servers,
  make_quic_client, quic_oneshot, tcp_oneshot, send, sleep,
}

ok_pair :
    {A B E : Type 0} (a c : A) (b d : B)
    → ◌≡◌ {A = Result (A × B) E} (ok (a, b)) (ok (c, d))
    → (c ≡ a) × (d ≡ b)
ok_pair a c b d h = (cc, cc)

module _ (r : Rustls) (trust : r.Cert → Result r.Roots r.E)
    (client_builder : Result (r.Roots → ClientConfig r.Y) r.E) where
  -- What stands behind a pair of configurations.
  pub record Trusted (s : ServerConfig r.X) (c : ClientConfig r.Y) : Type 0 where
    pub cert : r.Cert
    pub key : r.Key
    pub builder : r.Builder
    pub config : ServerConfig r.X
    pub certified : r.with_single_cert builder (cert ∷ []) key ≡ ok config
    pub serves_h3 : s ≡ record config { alpn_protocols = h3 }
    pub roots : r.Roots
    pub trusted : trust cert ≡ ok roots
    pub with_roots : r.Roots → ClientConfig r.Y
    pub asks_h3 : c ≡ record (with_roots roots) { alpn_protocols = h3 }

  make_tls_configs-eq-ok :
      (s : TlsConfig r.X r.Y) (c : TlsConfig r.X r.Y)
      → make_tls_configs r trust client_builder ≡ ok (s, c)
      → (sc : ServerConfig r.X) × (cc' : ClientConfig r.Y) × (s ≡ server sc)
        × (c ≡ client cc')
        × Trusted sc cc'
  unfolding make_tls_configs
  make_tls_configs-eq-ok s c h =
      let (pair, e1, w1) =
        >>=-eq-ok (unwrap (r.generate_simple_self_signed ("localhost" ∷ "127.0.0.1" ∷ []))) _ (s, c)
          h in
      let (b, e2, w2) = >>=-eq-ok (unwrap r.server_builder) _ (s, c) w1 in
      let (crypto, e3, w3) =
        >>=-eq-ok (unwrap (r.with_single_cert b (pair.0 ∷ []) pair.1)) _ (s, c) w2 in
      let (store, e4, w4) = >>=-eq-ok (unwrap (trust pair.0)) _ (s, c) w3 in
      let (with_roots, e5, w5) = >>=-eq-ok (unwrap client_builder) _ (s, c) w4 in
      let same =
        ok_pair (server (record crypto { alpn_protocols = h3 })) s
          (client (record (with_roots store) { alpn_protocols = h3 })) c w5 in
      (
        record crypto { alpn_protocols = h3 },
        record (with_roots store) { alpn_protocols = h3 },
        same.0,
        same.1,
        record {
          cert = pair.0;
          key = pair.1;
          builder = b;
          config = crypto;
          certified = unwrap-eq-ok (r.with_single_cert b (pair.0 ∷ []) pair.1) crypto e3;
          serves_h3 = refl;
          roots = store;
          trusted = unwrap-eq-ok (trust pair.0) store e4;
          with_roots = with_roots;
          asks_h3 = refl;
        },
      )

-- What stands behind the addresses of a pair of servers.
pub record Running {X Y Q : Type 0} (q : Quinn X Y Q) (tcp : Tcp q.A) (servers : BenchServers q.A)
    (tasks : List (Task X Y q.Endpoint tcp.Listener)) : Type 0 where
  pub quic_ep : q.Endpoint
  pub listener : tcp.Listener
  pub quic_bound : q.local_addr quic_ep ≡ ok servers.quic_addr
  pub tcp_bound : tcp.local_addr listener ≡ ok servers.tcp_addr
  pub spawned :
      tasks
      ≡ quic_task (Builder.build Builder.builder) quic_ep servers.quic_shutdown
        ∷ tcp_task listener servers.tcp_shutdown
        ∷ []
  pub stopped :
      shutdown_servers servers ≡ send quic_oneshot ∷ send tcp_oneshot ∷ sleep (from_millis 200) ∷ []

module _ {X Y Q : Type 0} (q : Quinn X Y Q) (tcp : Tcp q.A) (parse : String → Option q.A) where
  setup_servers-Running :
      (server_tls : TlsConfig X Y) (servers : BenchServers q.A)
      (tasks : List (Task X Y q.Endpoint tcp.Listener))
      → setup_servers q tcp parse server_tls ≡ ok (servers, tasks)
      → Running q tcp servers tasks
  unfolding setup_servers
  setup_servers-Running server_tls servers tasks h =
      let (any_port, e1, w1) =
        >>=-eq-ok (unwrap (ok_or tt (parse "127.0.0.1:0"))) _ (servers, tasks) h in
      let (ep, e2, w2) =
        >>=-eq-ok (unwrap (Endpoint.server q any_port server_tls)) _ (servers, tasks) w1 in
      let (qaddr, e3, w3) = >>=-eq-ok (unwrap (Endpoint.local_addr q ep)) _ (servers, tasks) w2 in
      let (listener, e4, w4) = >>=-eq-ok (unwrap (tcp.bind "127.0.0.1:0")) _ (servers, tasks) w3 in
      let (taddr, e5, w5) = >>=-eq-ok (unwrap (tcp.local_addr listener)) _ (servers, tasks) w4 in
      let (same, spawned) =
        ok_pair
          (record {
            quic_addr = qaddr;
            tcp_addr = taddr;
            quic_shutdown = quic_oneshot;
            tcp_shutdown = tcp_oneshot;
          })
          servers
          (quic_task (Builder.build Builder.builder) ep quic_oneshot
            ∷ tcp_task listener tcp_oneshot
            ∷ [])
          tasks w5 in
      record {
        quic_ep = ep;
        listener = listener;
        quic_bound =
            map_err-eq-ok io (q.local_addr ep) qaddr
              (unwrap-eq-ok (Endpoint.local_addr q ep) qaddr e3)
            ∙ ap ok (sym (ap (λ b. b.quic_addr) same));
        tcp_bound =
            unwrap-eq-ok (tcp.local_addr listener) taddr e5
            ∙ ap ok (sym (ap (λ b. b.tcp_addr) same));
        spawned =
            spawned
            ∙ ap
                (λ (b : BenchServers q.A).
                  quic_task (Builder.build Builder.builder) ep b.quic_shutdown
                  ∷ tcp_task listener b.tcp_shutdown
                  ∷ [])
                (sym same);
        stopped = ap shutdown_servers same;
      }

module _ (Q : Type 0) (r : Rustls) (trust : r.Cert → Result r.Roots r.E)
    (client_builder : Result (r.Roots → ClientConfig r.Y) r.E) (q : Quinn r.X r.Y Q) (tcp : Tcp q.A)
    (a : Addresses q.A) (f : Float) (text : q.A → String) (C H : Type 0) where
  -- If the set-up of a benchmark does not panic, and the address of its QUIC server is read back
  -- from its text, the QUIC client is a channel with an empty pool to the address of the endpoint
  -- on which the spawned server serves, with 512 permits and the client's configuration; both
  -- configurations are for h3, and the client trusts the certificate that the server has. What
  -- `shutdown_servers` sends goes to the two channels that end the two servers.
  pub setup_connects :
      (s c : TlsConfig r.X r.Y) (servers : BenchServers q.A)
      (tasks : List (Task r.X r.Y q.Endpoint tcp.Listener))
      → make_tls_configs r trust client_builder ≡ ok (s, c)
      → setup_servers q tcp a.parse s ≡ ok (servers, tasks)
      → a.parse (text servers.quic_addr) ≡ some servers.quic_addr
      → Running q tcp servers tasks
        × ((sc : ServerConfig r.X) × (cl : ClientConfig r.Y) × (s ≡ server sc)
            × (c ≡ client cl)
            × Trusted r trust client_builder sc cl)
        × (make_quic_client {C = C} {H = H} Q a f text servers.quic_addr c
            ≡ ok (record {
              remote = servers.quic_addr;
              server_name = a.ip_text servers.quic_addr;
              tls = some c;
              retry = Retry.default f;
              pool = Pool.new;
              concurrency_limit = 512;
            }))
  unfolding make_quic_client
  setup_connects s c servers tasks made set_up read = (
    setup_servers-Running q tcp a.parse s servers tasks set_up,
    make_tls_configs-eq-ok r trust client_builder s c made,
    ap unwrap (
        connect_literal {C = C} {H = H} {Q = Q} a
          (Channel.concurrency_limit 512 (Channel.tls c (Channel.builder f)))
          (text servers.quic_addr) servers.quic_addr read),
  )
