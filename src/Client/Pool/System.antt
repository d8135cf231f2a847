-- ===== src/Client/Pool/System.antt =====
-- The callers and connection tasks that share a pool (crates/grpc-quic-client/src/pool.rs),
-- interleaved in any order: a step is one critical section, or a connection that closes.
pub mod Invariant
pub mod Delivery
pub mod Receivers
pub mod Panic
pub mod Spec
pub mod Refinement
pub mod Answers
pub mod Open
mod Tests
use grpc_quic_rs.Common.{
  ℕ, zero, suc, ◌+◌, ◌-◌, ◌<◌, ◌≡◌, List, [], ◌∷◌, Option, none, some, Bool, true, false, Result,
  Display, update, ℕ_discrete, elem, Poll, pending, ready,
}
use grpc_quic_rs.Errors.{ClientError}
use grpc_quic_rs.Client.Pool.{
  PoolEntry, Slot, connecting, ready, Slots, received, Found, reuse, join, spawn, new,
  get_or_connect, invalidate, complete,
}

-- A oneshot channel: not made yet, awaited by a caller that asked for an address, or answered; whether
-- the sender of one that is awaited was dropped shows in `rx_poll`.
pub data Channel (A C H Q : Type 0) : Type 0 where
  unused : Channel A C H Q
  awaiting : A → Channel A C H Q
  answered : Result (PoolEntry C H) (ClientError Q) → Channel A C H Q

pub record System (A C H Q : Type 0) : Type 0 where
  pub inner : Slots A C H
  pub tasks : A → ℕ  -- connection tasks that run, by their address
  pub channel : ℕ → Channel A C H Q
  pub next : ℕ  -- channels made so far
  pub is_closed : C → Bool

abbrev pub init : {A C H Q : Type 0} → System A C H Q
init = record {
  inner = λ a. none;
  tasks = λ a. 0;
  channel = λ w. unused;
  next = 0;
  is_closed = λ c. false;
}

-- Whether a slot holds the sender of a channel.
abbrev pub holds : {C H : Type 0} → ℕ → Option (Slot C H) → Bool
holds w none = false
holds w (some (ready e)) = false
holds w (some (connecting ws)) = elem w ws

module _ {A C H Q : Type 0} ⦃d : Display Q⦄ where
  -- The receiver of a channel: a sender that no slot holds, and that has sent nothing, was dropped.
  rx_state : Slots A C H → ℕ → Channel A C H Q → Poll (Result (PoolEntry C H) (ClientError Q))
  unfolding received
  rx_state inner w unused = pending
  rx_state inner w (awaiting addr) = elim (holds w (inner addr)) [
    | true ↦ pending
    | false ↦ ready (received none)
  ]
  rx_state inner w (answered res) = ready (received (some res))

  -- What a caller that awaits its receiver finds.
  pub rx_poll : System A C H Q → ℕ → Poll (Result (PoolEntry C H) (ClientError Q))
  unfolding rx_state
  rx_poll s w = rx_state s.inner w (s.channel w)

pub deliver :
    {A C H Q : Type 0}
    → List (ℕ × Result (PoolEntry C H) (ClientError Q))
    → (ℕ → Channel A C H Q)
    → ℕ
    → Channel A C H Q
deliver [] channel = channel
deliver ((w, res) ∷ sent) channel = deliver sent (update ℕ_discrete channel w (answered res))

module _ {A C H Q : Type 0} (eq : Discrete A) where
  found : System A C H Q → A → Slots A C H × Found C H → System A C H Q
  found s addr (inner, reuse entry) = record s { inner = inner }
  found s addr (inner, join) = record s {
    inner = inner;
    channel = update ℕ_discrete s.channel s.next (awaiting addr);
    next = suc s.next;
  }
  found s addr (inner, spawn) = record s {
    inner = inner;
    tasks = update eq s.tasks addr (suc (s.tasks addr));
    channel = update ℕ_discrete s.channel s.next (awaiting addr);
    next = suc s.next;
  }

  -- A caller of `get_or_connect`, up to its await.
  pub requested : System A C H Q → A → System A C H Q
  unfolding found get_or_connect
  requested s addr = found s addr (get_or_connect eq s.is_closed addr s.next s.inner)

  pub invalidated : System A C H Q → A → System A C H Q
  unfolding invalidate
  invalidated s addr = record s { inner = invalidate eq s.is_closed addr s.inner }

module _ {A C H Q : Type 0} ⦃d : Display Q⦄ (eq : Discrete A) where
  -- A connection task ends.
  pub completed : System A C H Q → A → Result (PoolEntry C H) (ClientError Q) → System A C H Q
  unfolding complete
  completed s addr res = record s {
    inner = (complete eq addr res s.inner).0;
    tasks = update eq s.tasks addr (s.tasks addr - 1);
    channel = deliver (complete eq addr res s.inner).1 s.channel;
  }

-- A connection closes, by either side or by its loss.
pub closing : {A C H Q : Type 0} → Discrete C → System A C H Q → C → System A C H Q
closing eqc s c = record s { is_closed = update eqc s.is_closed c true }

module _ {A C H Q : Type 0} ⦃d : Display Q⦄ (eq : Discrete A) (eqc : Discrete C) where
  pub data Step (s : System A C H Q) : System A C H Q → Type 0 where
    request : (addr : A) → Step s (requested eq s addr)
    finish :
        (addr : A) (res : Result (PoolEntry C H) (ClientError Q))
        → 0 < s.tasks addr
        → Step s (completed eq s addr res)
    forget : (addr : A) → Step s (invalidated eq s addr)
    lose : (c : C) → Step s (closing eqc s c)

  pub data Reach : System A C H Q → Type 0 where
    start : Reach init
    later : {s t : System A C H Q} → Reach s → Step s t → Reach t
