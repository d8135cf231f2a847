-- ===== src/Core/Wire.antt =====
-- The sending half of an HTTP/3 stream, as the code that writes to it sees it: operations that
-- succeed or fail. The network is the outcome of the n-th operation on the stream.
use grpc_quic_rs.Common.{ℕ, List, [], ◌∷◌, Bytes, Option}
use grpc_quic_rs.Metrics.{Record}

-- `send_response` of a head `P`, `send_data`, `send_trailers`, `finish`.
pub data WireOp (P H : Type 0) : Type 0 where
  head : P → WireOp P H
  chunk : Bytes → WireOp P H
  tail : H → WireOp P H
  finish : WireOp P H

-- `none` is success.
abbrev pub Network : Type 0 → Type 0
Network E = ℕ → Option E

-- What a task does: operations with their outcomes, and calls of the recorders.
pub data Action (P H E : Type 0) : Type 0 where
  op : WireOp P H → Option E → Action P H E
  metric : Record → Action P H E

-- The operations of a trace.
abbrev pub ops : {P H E : Type 0} → List (Action P H E) → List (WireOp P H × Option E)
ops [] = []
ops (op o r ∷ rest) = (o, r) ∷ ops rest
ops (metric m ∷ rest) = ops rest

abbrev pub metrics : {P H E : Type 0} → List (Action P H E) → List Record
metrics [] = []
metrics (op o r ∷ rest) = metrics rest
metrics (metric m ∷ rest) = m ∷ metrics rest
