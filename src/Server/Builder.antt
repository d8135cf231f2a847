-- ===== src/Server/Builder.antt =====
-- The builder of a server, and the ways to serve, of crates/grpc-quic-server/src/server.rs, up to
-- the loop, whose steps are those of Server/Serve.antt.
pub mod Start
mod Tests
use grpc_quic_rs.Common.{
  ℕ, Option, none, some, Result, ok, err, ◌>>=◌, map_err, ok_or, Duration, from_secs, unwrap_or,
}
use grpc_quic_rs.Errors.{TransportError, tls, ServerError, transport}
use grpc_quic_rs.Server.Serve.{Server, Step, start}
use grpc_quic_rs.Transport.Tls.{TlsConfig}
use grpc_quic_rs.Transport.Endpoint
use grpc_quic_rs.Transport.Endpoint.{Quinn}

-- `QuicServerBuilder`; `K` is `TlsConfig`.
pub record QuicServerBuilder (K : Type 0) : Type 0 where
  pub tls : Option K
  pub max_concurrent_streams : Option ℕ
  pub graceful_timeout : Duration

pub record QuicServer (K : Type 0) : Type 0 where
  pub tls : Option K
  pub max_concurrent_streams : ℕ
  pub graceful_timeout : Duration

-- `QuicServer::builder`
abbrev pub builder : {K : Type 0} → QuicServerBuilder K
builder = record { tls = none; max_concurrent_streams = none; graceful_timeout = from_secs 30 }

module _ {K : Type 0} where
  unfoldable pub with_tls : K → QuicServerBuilder K → QuicServerBuilder K
  with_tls config self = record self { tls = some config }

  abbrev pub max_concurrent_streams : ℕ → QuicServerBuilder K → QuicServerBuilder K
  max_concurrent_streams limit self = record self { max_concurrent_streams = some limit }

  abbrev pub graceful_timeout : Duration → QuicServerBuilder K → QuicServerBuilder K
  graceful_timeout timeout self = record self { graceful_timeout = timeout }

  unfoldable pub build : QuicServerBuilder K → QuicServer K
  build self = record {
    tls = self.tls;
    max_concurrent_streams = unwrap_or 256 self.max_concurrent_streams;
    graceful_timeout = self.graceful_timeout;
  }

-- The future that asks for a shutdown, when it completes: `none` is `std::future::pending()`.
abbrev pub Signal : Type 0
Signal = Option ℕ

-- A server that is in its loop: its endpoint, and the signal that it was given.
pub record Serving (K E : Type 0) : Type 0 where
  pub server : QuicServer K
  pub endpoint : E
  pub signal : Signal

-- `serve_with_incoming_shutdown` fails nowhere before its loop, nor in it.
abbrev pub serve_with_incoming_shutdown : {K E : Type 0} → QuicServer K → E → Signal → Serving K E
serve_with_incoming_shutdown self endpoint signal = record {
  server = self;
  endpoint = endpoint;
  signal = signal;
}

-- The state of the loop as it is entered.
abbrev pub entered : {K E : Type 0} → Serving K E → Server
entered s = start s.server.max_concurrent_streams

-- The ways to serve: an error, or the server in its loop, which may return or not.
module _ {X Y Q : Type 0} (q : Quinn X Y Q) where
  open q use {A}

  pub serve_with_shutdown :
      QuicServer (TlsConfig X Y)
      → A
      → Signal
      → Result (Serving (TlsConfig X Y) q.Endpoint) (ServerError Q)
  serve_with_shutdown self addr signal = do
    config ← ok_or (transport (tls "TLS config is required")) self.tls
    endpoint ← map_err transport (Endpoint.server q addr config)
    ok (serve_with_incoming_shutdown self endpoint signal)

  unfoldable pub serve :
      QuicServer (TlsConfig X Y) → A → Result (Serving (TlsConfig X Y) q.Endpoint) (ServerError Q)
  unfolding serve_with_shutdown
  serve self addr = serve_with_shutdown self addr none

  abbrev pub serve_with_incoming :
      QuicServer (TlsConfig X Y) → q.Endpoint → Serving (TlsConfig X Y) q.Endpoint
  serve_with_incoming self endpoint = serve_with_incoming_shutdown self endpoint none

-- Whether the loop can take a step under a signal: `std::future::pending()` never completes.
abbrev pub IsEnabled : {s t : Server} → Signal → Step s t → Type 0
IsEnabled none (Step.signal at) = ⊥
IsEnabled _ _ = Unit

-- The states of a server that serves.
pub data Served {K E : Type 0} (serving : Serving K E) : Server → Type 0 where
  enters : Served serving (entered serving)
  serves :
      {s t : Server}
      → Served serving s
      → (st : Step s t) → IsEnabled serving.signal st
      → Served serving t
