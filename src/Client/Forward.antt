-- ===== src/Client/Forward.antt =====
-- The task that sends a request's body: `forward_task` in `QuicChannel::call` of
-- crates/grpc-quic-client/src/channel.rs. The body is the list of what its polls give until it
-- ends, and the network the outcome of the n-th operation.
pub mod Grammar
use grpc_quic_rs.Common.{
  ℕ, zero, suc, List, [], ◌∷◌, Option, none, some, Result, ok, err, Bytes, length, Display,
  to_string,
}
use grpc_quic_rs.Core.Http.{Frame, bytes, trailers, unknown}
use grpc_quic_rs.Core.Wire.{chunk, tail, finish, Network, Action, op, metric}
use grpc_quic_rs.Errors.{CoreError, h3_stream}
use grpc_quic_rs.Metrics.{sent}

-- What the task has done when it ends, and the error that it sent on `err_tx`, if it did.
pub record Forwarded (P H E : Type 0) : Type 0 where
  pub trace : List (Action P H E)
  pub reported : Option CoreError

module _ {E : Type 0} ⦃d : Display E⦄ where
  -- `err_tx.send(CoreError::H3Stream(e.to_string()))`, if an operation failed.
  report : Option E → Option CoreError
  report none = none
  report (some e) = some (h3_stream (to_string e))

  after_data : {P H : Type 0} → Bytes → Forwarded P H E → Option E → Forwarded P H E
  unfolding report
  after_data buf rest none = record {
    trace = op (chunk buf) none ∷ metric (sent "client" (length buf)) ∷ rest.trace;
    reported = rest.reported;
  }
  after_data buf rest (some e) = record {
    trace = op (chunk buf) (some e) ∷ [];
    reported = report (some e);
  }

module _ {P H B E : Type 0} ⦃d : Display E⦄ ⦃b : Display B⦄ (net : Network E) where
  -- The loop, after `n` operations.
  unfoldable pub forward : ℕ → List (Result (Frame H) B) → Forwarded P H E
  unfolding after_data report
  forward n [] = record { trace = op finish (net n) ∷ []; reported = report (net n) }
  forward n (err e ∷ body) = record { trace = []; reported = some (h3_stream (to_string e)) }
  forward n (ok (bytes buf) ∷ body) = after_data buf (forward (suc n) body) (net n)
  forward n (ok (trailers h) ∷ body) = record {
    trace = op (tail h) (net n) ∷ [];
    reported = report (net n);
  }
  forward n (ok unknown ∷ body) = forward n body
