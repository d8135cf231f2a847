-- ===== src/Client/Pool/System/Receivers.antt =====
-- What the callers of a pool find in their receivers (crates/grpc-quic-client/src/pool.rs).
use grpc_quic_rs.Common.{ℕ, ◌≡◌, refl, Result, Display, ready, arith}
use grpc_quic_rs.Errors.{ClientError}
use grpc_quic_rs.Client.Pool.{PoolEntry, received}
use grpc_quic_rs.Client.Pool.System.{
  Channel, unused, awaiting, answered, System, rx_poll, rx_state, Reach,
}
use grpc_quic_rs.Client.Pool.System.Invariant.{Inv, Reach-Inv}

module _ {A C H Q : Type 0} ⦃d : Display Q⦄ where
  arrived :
      {s : System A C H Q}
      → Inv s
      → (w : ℕ) (res : Result (PoolEntry C H) (ClientError Q)) (ch : Channel A C H Q)
      → s.channel w ≡ ch
      → rx_state s.inner w ch ≡ ready res
      → s.channel w ≡ answered res
  unfolding rx_state received
  arrived v w res unused at e = absurd (ground arith)
  arrived v w res (awaiting a) at e = absurd (ground (arith, v.covered w a at))
  arrived v w res (answered r) at e = ground arith

module _ {A C H Q : Type 0} ⦃d : Display Q⦄ {eq : Discrete A} {eqc : Discrete C} where
  -- The receiver of a caller comes to its end only with what the connection task has sent to it: as
  -- long as no task panics, no caller sees "connection task cancelled" for a sender that is lost.
  pub only_answers_arrive :
      {s : System A C H Q}
      → Reach eq eqc s
      → (w : ℕ) (res : Result (PoolEntry C H) (ClientError Q)) → rx_poll s w ≡ ready res
      → s.channel w ≡ answered res
  unfolding rx_poll
  only_answers_arrive {s} r w res e = arrived (Reach-Inv r) w res (s.channel w) refl e
