-- ===== src/Server/Builder/Tests.antt =====
-- An example of a start (crates/grpc-quic-server/src/server.rs).
use grpc_quic_rs.Common.{ℕ, String, [], none, some, ok, false, ◌≡◌, refl}
use grpc_quic_rs.Transport.Tls.{ServerConfig, TlsConfig, server}
use grpc_quic_rs.Transport.Endpoint
use grpc_quic_rs.Transport.Endpoint.{Quinn}
use grpc_quic_rs.Server.Builder.{
  QuicServer, Serving, builder, with_tls, build, serve, entered, Served, enters, serves,
}
use grpc_quic_rs.Server.Serve.{Server, on_incoming, incoming, start}
use grpc_quic_rs.Server.Builder.Start.{serve_never_shuts_down}

abbrev quinn : Quinn ℕ ℕ String
quinn = record {
  A = ℕ;
  C = ℕ;
  Endpoint = ℕ;
  Crypto = ℕ;
  ClientCrypto = ℕ;
  any_address = 0;
  quic_server_config = λ c. ok 1;
  quic_client_config = λ c. ok 2;
  server = λ crypto addr. ok addr;
  client = λ addr. ok addr;
  set_default_client_config = λ e crypto. e;
  set_server_config = λ e crypto. e;
  accept = λ e. none;
  connect = λ e addr name. ok (ok addr);
  local_addr = λ e. ok e;
  close = λ e code reason. e;
}

abbrev config : ServerConfig ℕ
config = record { rest = 0; alpn_protocols = []; max_early_data_size = 0 }

abbrev configured : QuicServer (TlsConfig ℕ ℕ)
configured = build (with_tls (server config) builder)

-- The server in its loop, and after its first connection was taken.
abbrev running : Serving (TlsConfig ℕ ℕ) ℕ
running = record { server = configured; endpoint = 50051; signal = none }

abbrev connected : Server
connected = on_incoming (entered running) (some (ok tt))

connected-Served : Served running connected
unfolding start
connected-Served = serves enters (incoming (some (ok tt)) refl) tt

serve_never_shuts_down_example :
    (c : ServerConfig ℕ) × (crypto : ℕ) × (configured.tls ≡ some (server c))
    × (quinn.quic_server_config c ≡ ok crypto)
    × (quinn.server crypto 50051 ≡ ok 50051)
    × (running.server ≡ configured)
    × (connected.cancelled ≡ false)
    × (connected.rejecting ≡ false)
unfolding serve build with_tls Endpoint.server
serve_never_shuts_down_example =
    serve_never_shuts_down quinn configured 50051 running connected refl connected-Served
