-- ===== src/Benches/Handshake/Connections.antt =====
-- What the handshake benchmark measures (crates/grpc-quic-benches/benches/handshake.rs).
use grpc_quic_rs.Common.{
  ℕ, zero, suc, String, List, [], ◌∷◌, length, some, Result, ok, >>=-eq-ok, push_str, ◌≡◌, refl, ap,
  sym, ◌∙◌, subst,
}
use grpc_quic_rs.Benches.{ok_inj, Panic, unwrap, unwrap-eq-ok}
use grpc_quic_rs.Benches.Setup.{
  Tcp, Task, BenchServers, make_tls_configs, setup_servers, shutdown_servers,
}
use grpc_quic_rs.Benches.Setup.Connects.{Running, setup_connects}
use grpc_quic_rs.Benches.Handshake.{
  Handshakes, iterations, connect_quic, connect_tcp, bench_handshake,
}
use grpc_quic_rs.Transport.Tls.{Rustls, ClientConfig, TlsConfig}
use grpc_quic_rs.Transport.Endpoint.{Quinn}
use grpc_quic_rs.Client.Channel
use grpc_quic_rs.Client.Channel.{QuicChannel, Addresses}
use grpc_quic_rs.Client.Channel.Connect.{connect_literal}
use grpc_quic_rs.Client.Pool
use grpc_quic_rs.Client.Retry
use grpc_quic_rs.Client.Retry.{Float}

-- What iterations give, each from its own number on.
abbrev Each : {X : Type 0} → (ℕ → X → Type 0) → ℕ → List X → Type 0
Each P n [] = Unit
Each P n (x ∷ xs) = P n x × Each P (suc n) xs

module _ {X : Type 0} (P : ℕ → X → Type 0) (once : ℕ → Result X Panic)
    (h : (n : ℕ) (x : X) → once n ≡ ok x → P n x) where
  iterations-Each :
      (n count : ℕ) (xs : List X)
      → iterations once n count ≡ ok xs
      → (length xs ≡ count) × Each P n xs
  unfolding iterations
  iterations-Each n zero [] e = (refl, tt)
  iterations-Each n zero (x ∷ xs) e = absurd (cc)
  iterations-Each n (suc count) xs e =
      let (x, e1, h1) = >>=-eq-ok (once n) _ xs e in
      let (rest, e2, h2) = >>=-eq-ok (iterations once (suc n) count) _ xs h1 in
      let (size, all) = iterations-Each (suc n) count rest e2 in
      subst (λ l. (length l ≡ suc count) × Each P n l) (ok_inj _ xs h2)
        (ap suc size, (h n x e1, all))

module _ {A C H K : Type 0} (Q : Type 0) (a : Addresses A) (f : Float) (text : A → String) where
  -- A channel that has never had a connection.
  abbrev pub unconnected : A → K → QuicChannel A C H K f.F
  unconnected addr tls = record {
    remote = addr;
    server_name = a.ip_text addr;
    tls = some tls;
    retry = Retry.default f;
    pool = Pool.new;
    concurrency_limit = 256;
  }

  connect_quic_lem :
      (addr : A) (tls : K)
      → a.parse (text addr) ≡ some addr
      → (n : ℕ) (channel : QuicChannel A C H K f.F)
      → connect_quic Q a f text tls addr n ≡ ok channel
      → channel ≡ unconnected addr tls
  unfolding connect_quic
  connect_quic_lem addr tls read n channel h = ok_inj channel (unconnected addr tls) (
      sym h
      ∙ ap unwrap (
          connect_literal {C = C} {H = H} {Q = Q} a (Channel.tls tls (Channel.builder f))
            (text addr) addr read))

module _ {A Chan N E : Type 0} (text : A → String) (new : String → Result N E)
    (connect : ℕ → N → Result Chan E) where
  -- The n-th channel of the TCP group is a connection that tonic has made.
  abbrev pub IsConnection : A → ℕ → Chan → Type 0
  IsConnection addr n chan =
      (endpoint : N) × (new (push_str "http://" (text addr)) ≡ ok endpoint)
      × (connect n endpoint ≡ ok chan)

  connect_tcp_lem :
      (addr : A) (n : ℕ) (chan : Chan)
      → connect_tcp text new connect addr n ≡ ok chan
      → IsConnection addr n chan
  unfolding connect_tcp
  connect_tcp_lem addr n chan h =
      let (endpoint, e1, h1) = >>=-eq-ok (unwrap (new (push_str "http://" (text addr)))) _ chan h in
      (
        endpoint,
        unwrap-eq-ok (new (push_str "http://" (text addr))) endpoint e1,
        unwrap-eq-ok (connect n endpoint) chan h1,
      )

module _ {C H Chan N E : Type 0} (Q : Type 0) (r : Rustls) (trust : r.Cert → Result r.Roots r.E)
    (client_builder : Result (r.Roots → ClientConfig r.Y) r.E) (q : Quinn r.X r.Y Q) (tcp : Tcp q.A)
    (a : Addresses q.A) (f : Float) (text : q.A → String) (new : String → Result N E)
    (connect : ℕ → N → Result Chan E) where
  -- Both servers were running and are shut down; each QUIC channel is the same one, which has never
  -- had a connection, and each TCP channel is a connection.
  abbrev pub Ran : ℕ → ℕ → Handshakes (QuicChannel q.A C H (TlsConfig r.X r.Y) f.F) Chan → Type 0
  Ran quic_count tcp_count done =
      (servers : BenchServers q.A) × (tasks : List (Task r.X r.Y q.Endpoint tcp.Listener))
      × (tls : TlsConfig r.X r.Y) × Running q tcp servers tasks
      × (length done.quic ≡ quic_count)
      × Each (λ n channel. channel ≡ unconnected Q a f text servers.quic_addr tls) 0 done.quic
      × (length done.tcp ≡ tcp_count)
      × Each (IsConnection text new connect servers.tcp_addr) 0 done.tcp
      × (done.shutdown ≡ shutdown_servers servers)

  -- If the handshake benchmark comes to its end, each iteration of its QUIC group has made the same
  -- channel to the address of the running server, with an empty pool: no connection, whatever quinn
  -- does. Each iteration of its TCP group is a connection that was made. Supposed are addresses that
  -- are read back from their texts.
  pub bench_handshake_lem :
      ((x : q.A) → a.parse (text x) ≡ some x)
      → (quic_count tcp_count : ℕ)
        (done : Handshakes (QuicChannel q.A C H (TlsConfig r.X r.Y) f.F) Chan)
      → bench_handshake Q r trust client_builder q tcp a f text new connect quic_count tcp_count
        ≡ ok done
      → Ran quic_count tcp_count done
  unfolding bench_handshake
  bench_handshake_lem read quic_count tcp_count done h =
      let (tls, e1, h1) = >>=-eq-ok (make_tls_configs r trust client_builder) _ done h in
      let (up, e2, h2) = >>=-eq-ok (setup_servers q tcp a.parse tls.0) _ done h1 in
      let (quic, e3, h3) =
        >>=-eq-ok (iterations (connect_quic Q a f text tls.1 (up.0).quic_addr) 0 quic_count) _ done
          h2 in
      let (tcp_chans, e4, h4) =
        >>=-eq-ok (iterations (connect_tcp text new connect (up.0).tcp_addr) 0 tcp_count) _ done
          h3 in
      let (running, configs, made) =
        setup_connects Q r trust client_builder q tcp a f text C H tls.0 tls.1 up.0 up.1 e1 e2
          (read (up.0).quic_addr) in
      let (many, same) =
        iterations-Each (λ n channel. channel ≡ unconnected Q a f text (up.0).quic_addr tls.1)
          (connect_quic Q a f text tls.1 (up.0).quic_addr)
          (connect_quic_lem Q a f text (up.0).quic_addr tls.1 (read (up.0).quic_addr)) 0 quic_count
          quic e3 in
      let (more, made_each) =
        iterations-Each (IsConnection text new connect (up.0).tcp_addr)
          (connect_tcp text new connect (up.0).tcp_addr)
          (connect_tcp_lem text new connect (up.0).tcp_addr) 0 tcp_count tcp_chans e4 in
      let is = ok_inj _ done h4 in
      subst (Ran quic_count tcp_count) is
        (up.0, up.1, tls.1, running, many, same, more, made_each, refl)
