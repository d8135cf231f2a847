-- ===== src/Client/Pool.antt =====
-- crates/grpc-quic-client/src/pool.rs: the connection pool. Every operation holds the mutex of the
-- map for one critical section, which is one function here; what it awaits without the mutex lies
-- between these. `A` is `SocketAddr`, `C` the handle `QuicConnection`, `H` the HTTP/3 session and
-- `Q` quinn's `ConnectionError`. A oneshot channel is a number, which stands for both of its ends.
pub mod System
use grpc_quic_rs.Common.{
  ℕ, String, ◌≡◌, List, [], ◌∷◌, ◌++◌, map, Option, none, some, Bool, true, false, Result, ok, err,
  Display, to_string, io_other, update,
}
use grpc_quic_rs.Metrics.{Record, connection}
use grpc_quic_rs.Errors.{
  ClientError, stream_io, CoreError, client_error_display, core_error_display,
}

pub record PoolEntry (C H : Type 0) : Type 0 where
  pub quic : C
  pub h3 : H

pub data Slot (C H : Type 0) : Type 0 where
  connecting : List ℕ → Slot C H
  ready : PoolEntry C H → Slot C H

-- `HashMap<SocketAddr, Slot>`
abbrev pub Slots : Type 0 → Type 0 → Type 0 → Type 0
Slots A C H = A → Option (Slot C H)

-- What `get_or_connect` does when it has let go of the mutex: it returns a pooled entry, or awaits
-- its receiver, and in the last case it has spawned the task that connects.
pub data Found (C H : Type 0) : Type 0 where
  reuse : PoolEntry C H → Found C H
  join : Found C H
  spawn : Found C H

-- `ConnectionPool::new`
unfoldable pub new : {A C H : Type 0} → Slots A C H
new a = none

module _ {A C H : Type 0} (eq : Discrete A) where
  -- The critical section of `get_or_connect`. `is_closed` is the state of the connections at the
  -- time, and `tx` the new channel.
  locked_get : (C → Bool) → A → ℕ → Slots A C H → Option (Slot C H) → Slots A C H × Found C H
  locked_get is_closed addr tx inner none =
      (update eq inner addr (some (connecting (tx ∷ []))), spawn)
  locked_get is_closed addr tx inner (some (connecting waiters)) =
      (update eq inner addr (some (connecting (waiters ++ tx ∷ []))), join)
  locked_get is_closed addr tx inner (some (ready entry)) = elim (is_closed entry.quic) [
    | false ↦ (inner, reuse entry)
    | true ↦ (update eq inner addr (some (connecting (tx ∷ []))), spawn)
  ]

  unfoldable pub get_or_connect : (C → Bool) → A → ℕ → Slots A C H → Slots A C H × Found C H
  unfolding locked_get
  get_or_connect is_closed addr tx inner = locked_get is_closed addr tx inner (inner addr)

  -- `invalidate` forgets a pooled connection that has closed.
  locked_invalidate : (C → Bool) → A → Slots A C H → Option (Slot C H) → Slots A C H
  locked_invalidate is_closed addr inner none = inner
  locked_invalidate is_closed addr inner (some (connecting waiters)) = inner
  locked_invalidate is_closed addr inner (some (ready entry)) = elim (is_closed entry.quic) [
    | false ↦ inner
    | true ↦ update eq inner addr none
  ]

  unfoldable pub invalidate : (C → Bool) → A → Slots A C H → Slots A C H
  unfolding locked_invalidate
  invalidate is_closed addr inner = locked_invalidate is_closed addr inner (inner addr)

module _ {C H Q : Type 0} ⦃d : Display Q⦄ where
  -- The first half of the spawned task: `connect_fn`, then the HTTP/3 handshake over its connection.
  -- The second component is what it records.
  abbrev pub establish :
      Result C (ClientError Q)
      → (C → Result H CoreError)
      → Result (PoolEntry C H) (ClientError Q) × List Record
  establish (err e) new_session = (err e, [])
  establish (ok quic) new_session = elim (new_session quic) [
    | ok h3 ↦ (ok (record { quic = quic; h3 = h3 }), connection "client" ∷ [])
    | err e ↦ (err (stream_io (io_other (to_string e))), [])
  ]

  -- What each waiter is sent: the entry, or the error's text in a new error.
  unfoldable pub send_res :
      Result (PoolEntry C H) (ClientError Q) → Result (PoolEntry C H) (ClientError Q)
  send_res (ok entry) = ok entry
  send_res (err e) = err (stream_io (io_other (to_string e)))

  -- `rx.await.unwrap_or_else(…)`: `none` means that the sender is gone.
  unfoldable pub received :
      Option (Result (PoolEntry C H) (ClientError Q)) → Result (PoolEntry C H) (ClientError Q)
  received none = err (stream_io (io_other "connection task cancelled"))
  received (some res) = res

module _ {A C H Q : Type 0} ⦃d : Display Q⦄ (eq : Discrete A) where
  -- The second half of the task, under the mutex: the slot is removed, and on success filled again;
  -- each waiter is sent its result, in the order in which they came.
  locked_complete :
      A
      → Result (PoolEntry C H) (ClientError Q)
      → Slots A C H
      → Option (Slot C H)
      → Slots A C H × List (ℕ × Result (PoolEntry C H) (ClientError Q))
  locked_complete addr res inner none = (update eq inner addr none, [])
  locked_complete addr res inner (some (ready entry)) = (update eq inner addr none, [])
  locked_complete addr (ok entry) inner (some (connecting waiters)) = (
    update eq (update eq inner addr none) addr (some (ready entry)),
    map (λ tx. (tx, send_res (ok entry))) waiters,
  )
  locked_complete addr (err e) inner (some (connecting waiters)) =
      (update eq inner addr none, map (λ tx. (tx, send_res (err e))) waiters)

  unfoldable pub complete :
      A
      → Result (PoolEntry C H) (ClientError Q)
      → Slots A C H
      → Slots A C H × List (ℕ × Result (PoolEntry C H) (ClientError Q))
  unfolding locked_complete
  complete addr res inner = locked_complete addr res inner (inner addr)
