-- ===== src/Server/Builder/Start.antt =====
-- What a server needs to start, and what can end it (crates/grpc-quic-server/src/server.rs).
use grpc_quic_rs.Common.{
  false, none, some, ok, ◌≡◌, refl, >>=-eq-ok, map_err-eq-ok, ok_or-eq-ok, ◌∙◌, ap, sym, err,
}
use grpc_quic_rs.Errors.{transport}
use grpc_quic_rs.Transport.Tls.{ServerConfig, TlsConfig, server}
use grpc_quic_rs.Transport.Endpoint.{Quinn}
use grpc_quic_rs.Transport.Endpoint.Roles.{server_of_its_config}
use grpc_quic_rs.Server.Serve.{
  Server, listening, signal, incoming, task, joined, timeout, start, on_incoming, on_timeout,
}
use grpc_quic_rs.Server.Builder.{
  QuicServer, Signal, Serving, serve, serve_with_shutdown, IsEnabled, Served, enters, serves,
}

-- The connections were not told of a shutdown, and new ones are not rejected.
abbrev IsQuietServer : Server → Type 0
IsQuietServer s = (s.cancelled ≡ false) × (s.rejecting ≡ false)

never_enabled :
    (s : Server) (at : s.mode ≡ listening) (g : Signal)
    → g ≡ none
    → IsEnabled {s = s} g (signal at)
    → ⊥
never_enabled s at none e on = on
never_enabled s at (some n) e on = cc

-- Without the branch of the signal nothing shuts the server down.
Served-IsQuietServer :
    {K E : Type 0} (x : Serving K E) {s : Server} → x.signal ≡ none → Served x s → IsQuietServer s
unfolding start on_incoming on_timeout
Served-IsQuietServer x never enters = (refl, refl)
Served-IsQuietServer x never (serves {s} r (signal at) on) =
    absurd (never_enabled s at x.signal never on)
Served-IsQuietServer x never (serves r (incoming none at) on) = Served-IsQuietServer x never r
Served-IsQuietServer x never (serves r (incoming (some (err e)) at) on) =
    Served-IsQuietServer x never r
Served-IsQuietServer x never (serves r (incoming (some (ok conn)) at) on) =
    Served-IsQuietServer x never r
Served-IsQuietServer x never (serves r (task running st) on) = Served-IsQuietServer x never r
Served-IsQuietServer x never (serves r (joined at all) on) = Served-IsQuietServer x never r
Served-IsQuietServer x never (serves r (timeout at) on) = Served-IsQuietServer x never r

module _ {X Y Q : Type 0} (q : Quinn X Y Q) where
  pub serve_starts :
      (self : QuicServer (TlsConfig X Y)) (addr : q.A) (x : Serving (TlsConfig X Y) q.Endpoint)
      → serve q self addr ≡ ok x
      → (config : ServerConfig X) × (crypto : q.Crypto) × (e : q.Endpoint) × (self.tls
          ≡ some (server config))
        × (q.quic_server_config config ≡ ok crypto)
        × (q.server crypto addr ≡ ok e)
        × (x ≡ record { server = self; endpoint = e; signal = none })
  unfolding serve serve_with_shutdown
  serve_starts self addr x h =
      let (t, e1, h1) = >>=-eq-ok _ _ x h in
      let (e, e2, h2) = >>=-eq-ok _ _ x h1 in
      let (config, crypto, e3, e4, e5) =
        server_of_its_config q addr t e (map_err-eq-ok transport _ e e2) in
      (config, crypto, e, ok_or-eq-ok _ self.tls t e1 ∙ ap some e3, e4, e5, cc)

  -- A server that `serve` has started has a server's TLS configuration, which quinn took, and an
  -- endpoint bound to the address from it. No signal ever reaches its loop: whatever happens to it,
  -- its connections are not told of a shutdown, and its endpoint does not reject new ones.
  pub serve_never_shuts_down :
      (self : QuicServer (TlsConfig X Y)) (addr : q.A) (x : Serving (TlsConfig X Y) q.Endpoint)
      (s : Server)
      → serve q self addr ≡ ok x
      → Served x s
      → (config : ServerConfig X) × (crypto : q.Crypto) × (self.tls ≡ some (server config))
        × (q.quic_server_config config ≡ ok crypto)
        × (q.server crypto addr ≡ ok x.endpoint)
        × (x.server ≡ self)
        × (s.cancelled ≡ false)
        × (s.rejecting ≡ false)
  serve_never_shuts_down self addr x s h r =
      let (config, crypto, e, e1, e2, e3, same) = serve_starts self addr x h in
      let (quiet, accepts) = Served-IsQuietServer x (ap (λ y. y.signal) same) r in
      (
        config,
        crypto,
        e1,
        e2,
        e3 ∙ ap ok (sym (ap (λ y. y.endpoint) same)),
        ap (λ y. y.server) same,
        quiet,
        accepts,
      )
