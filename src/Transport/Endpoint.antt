-- ===== src/Transport/Endpoint.antt =====
-- crates/grpc-quic-transport/src/endpoint.rs: making an endpoint and using it. quinn's endpoint is
-- a parameter; a connection is the handle that quinn gives.
pub mod Roles
use grpc_quic_rs.Common.{
  ℕ, String, Bytes, Option, none, some, Result, ok, err, ◌>>=◌, map_err, Display, to_string,
  IoError,
}
use grpc_quic_rs.Errors.{TransportError, stream, connection, tls, io}
use grpc_quic_rs.Transport.Tls.{ServerConfig, ClientConfig, TlsConfig, server_config, client_config}

-- What the crate calls of quinn. `bound` is the state of the host's sockets, which a bind changes.
pub record Quinn (X Y Q : Type 0) : Type 1 where
  pub A : Type 0
  pub C : Type 0
  pub Endpoint : Type 0
  pub Crypto : Type 0
  pub ClientCrypto : Type 0
  pub any_address : A  -- `"0.0.0.0:0".parse()`
  pub quic_server_config : ServerConfig X → Result Crypto String
  pub quic_client_config : ClientConfig Y → Result ClientCrypto String
  pub server : Crypto → A → Result Endpoint IoError
  pub client : A → Result Endpoint IoError
  pub set_default_client_config : Endpoint → ClientCrypto → Endpoint
  pub set_server_config : Endpoint → Option Crypto → Endpoint
  pub accept : Endpoint → Option (Result C Q)  -- with the handshake awaited
  pub connect : Endpoint → A → String → Result (Result C Q) String
  pub local_addr : Endpoint → Result A IoError
  pub close : Endpoint → ℕ → Bytes → Endpoint

module _ {X Y Q : Type 0} (q : Quinn X Y Q) where
  open q use {A, C, Endpoint, Crypto, ClientCrypto}

  abbrev tls_error : {B : Type 0} → Result B String → Result B (TransportError Q)
  tls_error = map_err tls

  -- `QuicEndpoint::server`
  unfoldable pub server : A → TlsConfig X Y → Result Endpoint (TransportError Q)
  unfolding server_config
  server addr config = do
    server_config ← server_config config
    quic_server_config ← tls_error (q.quic_server_config server_config)
    map_err io (q.server quic_server_config addr)

  -- `QuicEndpoint::client`
  abbrev pub client : TlsConfig X Y → Result Endpoint (TransportError Q)
  unfolding client_config
  client config = do
    client_config ← client_config config
    quic_client_config ← tls_error (q.quic_client_config client_config)
    endpoint ← map_err io (q.client q.any_address)
    ok (q.set_default_client_config endpoint quic_client_config)

  accepted : Option (Result C Q) → Option (Result C (TransportError Q))
  accepted none = none
  accepted (some r) = some (map_err connection r)

  abbrev pub accept : Endpoint → Option (Result C (TransportError Q))
  unfolding accepted
  accept self = accepted (q.accept self)

  abbrev pub connect : Endpoint → A → String → Result C (TransportError Q)
  connect self addr server_name = do
    connecting ← map_err stream (q.connect self addr server_name)
    map_err connection connecting

  abbrev pub local_addr : Endpoint → Result A (TransportError Q)
  local_addr self = map_err io (q.local_addr self)

  abbrev pub close : Endpoint → ℕ → Bytes → Endpoint
  close self error_code reason = q.close self error_code reason

  abbrev reject_new_connections : Endpoint → Endpoint
  reject_new_connections self = q.set_server_config self none
