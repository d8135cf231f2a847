-- ===== src/Transport/Endpoint/Roles.antt =====
-- An endpoint has the role of its configuration (crates/grpc-quic-transport/src/endpoint.rs).
use grpc_quic_rs.Common.{ok, ◌≡◌, refl, map_err-eq-ok, >>=-eq-ok}
use grpc_quic_rs.Errors.{tls, io}
use grpc_quic_rs.Transport.Tls.{ServerConfig, TlsConfig, server, client, server_config}
use grpc_quic_rs.Transport.Endpoint
use grpc_quic_rs.Transport.Endpoint.{Quinn}

module _ {X Y Q : Type 0} (q : Quinn X Y Q) where
  -- A server's endpoint comes from a server's configuration which rustls and quinn took, bound to
  -- the address asked for; with any other configuration there is none.
  pub server_of_its_config :
      (addr : q.A) (config : TlsConfig X Y) (e : q.Endpoint)
      → Endpoint.server q addr config ≡ ok e
      → (c : ServerConfig X) × (crypto : q.Crypto) × (config ≡ server c)
        × (q.quic_server_config c ≡ ok crypto)
        × (q.server crypto addr ≡ ok e)
  unfolding Endpoint.server server_config
  server_of_its_config addr (server c) e h =
      let (crypto, e1, h1) = >>=-eq-ok _ _ e h in
      (
        c,
        crypto,
        refl,
        map_err-eq-ok tls (q.quic_server_config c) crypto e1,
        map_err-eq-ok io (q.server crypto addr) e h1,
      )
  server_of_its_config addr (client c) e h = absurd (cc)
