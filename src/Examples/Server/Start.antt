-- ===== src/Examples/Server/Start.antt =====
-- What the example server needs to start (examples/src/server.rs).
use grpc_quic_rs.Common.{
  String, [], ◌∷◌, Option, none, some, Result, ok, err, ok_or, ok_or-eq-ok, push_str, from_secs,
  ◌≡◌, refl, ap, ◌∙◌, sym, u32_max,
}
use grpc_quic_rs.Transport.Tls.{Rustls, TlsConfig, ServerConfig, server, h3, server_self_signed}
use grpc_quic_rs.Transport.Tls.Loading.{server_self_signed_inv}
use grpc_quic_rs.Transport.Endpoint.{Quinn}
use grpc_quic_rs.Server.Builder.{Serving, builder, with_tls, build, serve}
use grpc_quic_rs.Server.Builder.Start.{serve_starts}
use grpc_quic_rs.Examples.Client.{Printed, lift, ◌>>=◌}
use grpc_quic_rs.Examples.Server.{setup, serving, unreadable_address, main}

lift->>= :
    {A B E F : Type 0} (f : E → F) (m : Result A E) (k : A → Printed B F) (b : B)
    → (lift f m >>= k).1 ≡ ok b
    → (a : A) × (m ≡ ok a) × ((lift f m >>= k) ≡ k a)
lift->>= f (ok a) k b h = (a, refl, refl)
lift->>= f (err e) k b h = absurd (cc)

lift_ok :
    {A E F : Type 0} (f : E → F) (m : Result A E) (a : A)
    → (lift f m).1 ≡ ok a
    → lift f m ≡ ([], ok a) × (m ≡ ok a)
lift_ok f (ok x) a h = (cc, cc)
lift_ok f (err e) a h = absurd (cc)

module _ {Q : Type 0} (r : Rustls) (q : Quinn r.X r.Y Q) (parse : String → Option q.A)
    (text : q.A → String) where
  -- The example server serves only if a certificate for its two names was generated, rustls and
  -- quinn took it, its address was read and an endpoint bound to it; then it is in its loop on that
  -- endpoint, without a shutdown signal, with 256 streams and a graceful timeout of 30 seconds, and
  -- the one line printed names the address.
  pub main_starts :
      (x : Serving (TlsConfig r.X r.Y) q.Endpoint)
      → (main r q parse text).1 ≡ ok x
      → (cert : r.Cert) × (key : r.Key) × (builder : r.Builder) × (config : ServerConfig r.X)
        × (addr : q.A) × (crypto : q.Crypto) × (e : q.Endpoint) × (r.generate_simple_self_signed
              ("localhost" ∷ "127.0.0.1" ∷ [])
            ≡ ok (cert, key))
        × (r.with_single_cert builder (cert ∷ []) key ≡ ok config)
        × (parse "127.0.0.1:50051" ≡ some addr)
        × (q.quic_server_config
              (record config { alpn_protocols = h3; max_early_data_size = u32_max })
            ≡ ok crypto)
        × (q.server crypto addr ≡ ok e)
        × (x ≡ record {
          server = record {
            tls =
                some
                  (server (record config { alpn_protocols = h3; max_early_data_size = u32_max }));
            max_concurrent_streams = 256;
            graceful_timeout = from_secs 30;
          };
          endpoint = e;
          signal = none;
        })
        × ((main r q parse text).0 ≡ push_str "Starting gRPC-over-QUIC server on " (text addr) ∷ [])
  unfolding main build with_tls
  main_starts x h =
      let (t, e1, w1) =
        lift->>= setup (server_self_signed Q r ("localhost" ∷ "127.0.0.1" ∷ [])) _ x h in
      let (addr, e2, w2) =
        lift->>= (λ e. e) (ok_or unreadable_address (parse "127.0.0.1:50051")) _ x
          (sym (ap (λ p. p.1) w1) ∙ h) in
      let all = w1 ∙ w2 in
      let (w3, served) =
        lift_ok serving (serve q (build (with_tls t builder)) addr) x
          (sym (ap (λ p. p.1) all) ∙ h) in
      let (cert, key, b, config, g1, g2, g3, g4) =
        server_self_signed_inv Q r ("localhost" ∷ "127.0.0.1" ∷ []) t e1 in
      let (c, crypto, e, s1, s2, s3, s4) =
        serve_starts q (build (with_tls t builder)) addr x served in
      let same : c ≡ record config { alpn_protocols = h3; max_early_data_size = u32_max } = cc in
      (
        cert,
        key,
        b,
        config,
        addr,
        crypto,
        e,
        g1,
        g3,
        ok_or-eq-ok _ (parse "127.0.0.1:50051") addr e2,
        cc,
        s3,
        cc,
        ap (λ p. p.0) all
            ∙ ap (λ p. push_str "Starting gRPC-over-QUIC server on " (text addr) ∷ p.0) w3,
      )
