-- ===== src/Metrics/Spans.antt =====
-- crates/grpc-quic-metrics/src/tracing.rs: the spans. The `tracing` package is what a span is made
-- of here: a level, a name and fields.
use grpc_quic_rs.Common.{ℕ, String, List, [], ◌∷◌, Display, to_string}

data Level : Type 0 where
  info : Level
  debug : Level

data Value : Type 0 where
  displayed : String → Value  -- recorded with `%`
  number : ℕ → Value

record Span : Type 0 where
  level : Level
  name : String
  fields : List (String × Value)

abbrev connect : String
connect = "grpc_quic.connect"

abbrev accept : String
accept = "grpc_quic.accept"

abbrev send : String
send = "grpc_quic.send"

abbrev recv : String
recv = "grpc_quic.recv"

abbrev reconnect : String
reconnect = "grpc_quic.reconnect"

abbrev connect_span : {R : Type 0} ⦃d : Display R⦄ → R → Span
connect_span remote = record {
  level = info;
  name = connect;
  fields = ("remote", displayed (to_string remote)) ∷ [];
}

abbrev accept_span : Span
accept_span = record { level = info; name = accept; fields = [] }

abbrev send_span : ℕ → Span
send_span len = record { level = debug; name = send; fields = ("len", number len) ∷ [] }

abbrev recv_span : ℕ → Span
recv_span len = record { level = debug; name = recv; fields = ("len", number len) ∷ [] }

abbrev reconnect_span : ℕ → Span
reconnect_span attempt = record {
  level = info;
  name = reconnect;
  fields = ("attempt", number attempt) ∷ [];
}
