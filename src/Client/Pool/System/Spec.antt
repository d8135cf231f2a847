-- ===== src/Client/Pool/System/Spec.antt =====
-- What the connection pool promises (crates/grpc-quic-client/src/pool.rs), without its lists of
-- senders and its tasks: each address is idle, being connected to, or pooled; who asks while it is
-- not pooled waits; and the outcome of one connection answers everyone who waits for the address.
use grpc_quic_rs.Common.{
  ℕ, suc, ◌≡◌, Bool, true, false, Result, ok, err, Display, update, ℕ_discrete, ite,
}
use grpc_quic_rs.Errors.{ClientError}
use grpc_quic_rs.Client.Pool.{PoolEntry, send_res}
use grpc_quic_rs.Client.Pool.System.{Channel, awaiting, answered}

pub data Status (C H : Type 0) : Type 0 where
  idle : Status C H
  busy : Status C H
  pooled : PoolEntry C H → Status C H

-- The callers' channels are what can be seen from outside.
pub record Spec (A C H Q : Type 0) : Type 0 where
  pub status : A → Status C H
  pub caller : ℕ → Channel A C H Q
  pub next : ℕ
  pub is_closed : C → Bool

-- The status that a connection attempt leaves behind.
abbrev pub outcome : {C H Q : Type 0} → Result (PoolEntry C H) (ClientError Q) → Status C H
outcome (ok entry) = pooled entry
outcome (err e) = idle

-- A caller's channel, if its address is answered.
abbrev pub reply :
    {A C H Q : Type 0}
    → Discrete A
    → A
    → Result (PoolEntry C H) (ClientError Q)
    → Channel A C H Q
    → Channel A C H Q
reply eq addr res (awaiting a) = ite (eq a addr) (answered res) (awaiting a)
reply eq addr res channel = channel

module _ {A C H Q : Type 0} (eq : Discrete A) where
  -- A caller that has to wait, with its address's new status.
  abbrev pub wait : Spec A C H Q → A → Spec A C H Q
  wait s addr = record s {
    status = update eq s.status addr busy;
    caller = update ℕ_discrete s.caller s.next (awaiting addr);
    next = suc s.next;
  }

  abbrev pub ask_at : Spec A C H Q → A → Status C H → Spec A C H Q
  ask_at s addr idle = wait s addr
  ask_at s addr busy = wait s addr
  ask_at s addr (pooled entry) = elim (s.is_closed entry.quic) [ false ↦ s | true ↦ wait s addr ]

  abbrev pub ask : Spec A C H Q → A → Spec A C H Q
  ask s addr = ask_at s addr (s.status addr)

  abbrev pub drop_at : Spec A C H Q → A → Status C H → Spec A C H Q
  drop_at s addr (pooled entry) = elim (s.is_closed entry.quic) [
    | false ↦ s
    | true ↦ record s { status = update eq s.status addr idle }
  ]
  drop_at s addr status = s

  abbrev pub drop : Spec A C H Q → A → Spec A C H Q
  drop s addr = drop_at s addr (s.status addr)

  abbrev pub settle :
      ⦃d : Display Q⦄ → Spec A C H Q → A → Result (PoolEntry C H) (ClientError Q) → Spec A C H Q
  settle s addr res = record s {
    status = update eq s.status addr (outcome res);
    caller = λ w. reply eq addr (send_res res) (s.caller w);
  }

abbrev pub close : {A C H Q : Type 0} → Discrete C → Spec A C H Q → C → Spec A C H Q
close eqc s c = record s { is_closed = update eqc s.is_closed c true }

module _ {A C H Q : Type 0} ⦃d : Display Q⦄ (eq : Discrete A) (eqc : Discrete C) where
  pub data SpecStep (s : Spec A C H Q) : Spec A C H Q → Type 0 where
    asks : (addr : A) → SpecStep s (ask eq s addr)
    settles :
        (addr : A) (res : Result (PoolEntry C H) (ClientError Q))
        → s.status addr ≡ busy
        → SpecStep s (settle eq s addr res)
    drops : (addr : A) → SpecStep s (drop eq s addr)
    closes : (c : C) → SpecStep s (close eqc s c)
