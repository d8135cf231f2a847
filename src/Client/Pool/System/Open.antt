-- ===== src/Client/Pool/System/Open.antt =====
-- A pooled connection that stays open (crates/grpc-quic-client/src/pool.rs).
use grpc_quic_rs.Common.{◌≡◌, some, false}
use grpc_quic_rs.Client.Pool.{PoolEntry, ready, reuse, get_or_connect, locked_get}
use grpc_quic_rs.Client.Pool.System.{System, requested, invalidated}

-- While the pooled connection of an address is open, neither a request for it nor `invalidate`
-- changes the pool.
module _ {A C H Q : Type 0} (eq : Discrete A) (s : System A C H Q) (addr : A)
    (entry : PoolEntry C H) (at : s.inner addr ≡ some (ready entry))
    (alive : s.is_closed entry.quic ≡ false) where
  pub open-get_or_connect :
      get_or_connect eq s.is_closed addr s.next s.inner ≡ (s.inner, reuse entry)
  unfolding get_or_connect locked_get
  open-get_or_connect = cc

  pub open-requested : requested eq s addr ≡ s
  unfolding requested
  open-requested = cc

  pub open-invalidated : invalidated eq s addr ≡ s
  unfolding invalidated
  open-invalidated = cc
