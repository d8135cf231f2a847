-- ===== src/Examples/Server.antt =====
-- `main` of examples/src/server.rs: starting the example server. The parser and the text of
-- addresses are the standard library's.
pub mod Start
use grpc_quic_rs.Common.{String, [], ◌∷◌, Option, map_err, ok_or, push_str}
use grpc_quic_rs.Errors.{TransportError, ServerError}
use grpc_quic_rs.Transport.Tls
use grpc_quic_rs.Transport.Tls.{Rustls, TlsConfig}
use grpc_quic_rs.Transport.Endpoint.{Quinn}
use grpc_quic_rs.Server.Builder
use grpc_quic_rs.Server.Builder.{Serving}
use grpc_quic_rs.Examples.Client.{Printed, say, lift, ◌>>=◌}

-- The errors that `?` boxes.
pub data StartError (Q : Type 0) : Type 0 where
  setup : TransportError Q → StartError Q
  unreadable_address : StartError Q
  serving : ServerError Q → StartError Q

module _ {Q : Type 0} (r : Rustls) (q : Quinn r.X r.Y Q) (parse : String → Option q.A)
    (text : q.A → String) where
  -- `main`, up to the loop of its server.
  unfoldable pub main : Printed (Serving (TlsConfig r.X r.Y) q.Endpoint) (StartError Q)
  main = do
    tls ← lift setup (Tls.server_self_signed Q r ("localhost" ∷ "127.0.0.1" ∷ []))
    addr ← lift (λ (e : StartError Q). e) (ok_or unreadable_address (parse "127.0.0.1:50051"))
    _ ← say (push_str "Starting gRPC-over-QUIC server on " (text addr))
    lift serving (Builder.serve q (Builder.build (Builder.with_tls tls Builder.builder)) addr)
