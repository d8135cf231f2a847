-- ===== src/Client/Retry/Backoff.antt =====
-- The delays of crates/grpc-quic-client/src/retry.rs.
use grpc_quic_rs.Common.{ℕ, ◌≤◌, arith}
use grpc_quic_rs.Client.Retry.{Float, RetryPolicy, backoff_for}

module _ (f : Float) where
  open f use {F}

  -- A delay never exceeds the policy's cap, whatever the multiplier and the arithmetic of `f64`.
  pub backoff_for-le-max_backoff :
      (p : RetryPolicy F) (attempt : ℕ) → backoff_for f p attempt ≤ p.max_backoff
  unfolding backoff_for
  backoff_for-le-max_backoff p attempt = omega arith
