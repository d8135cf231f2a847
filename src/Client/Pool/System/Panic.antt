-- ===== src/Client/Pool/System/Panic.antt =====
-- A connection task that panics (crates/grpc-quic-client/src/pool.rs): the task ends before its
-- second critical section, so the senders of its slot are neither used nor dropped.
use grpc_quic_rs.Common.{
  ℕ, ◌-◌, ◌≤◌, ◌<◌, ◌≡◌, refl, ◌≢◌, Option, none, some, true, Result, ok, err, Display, pending,
  update, arith,
}
use grpc_quic_rs.Errors.{ClientError}
use grpc_quic_rs.Client.Pool.{PoolEntry, Slot, connecting, ready, send_res}
use grpc_quic_rs.Client.Pool.System.{
  unused, awaiting, System, holds, rx_poll, rx_state, completed, closing, requested, invalidated,
  Step, request, finish, forget, lose, Reach,
}
use grpc_quic_rs.Client.Pool.System.Invariant.{in_flight, elem-concat, deliver_lem, Reach-Inv}

-- The task of an address is gone, and nothing else has changed.
pub panicked : {A C H Q : Type 0} → Discrete A → System A C H Q → A → System A C H Q
panicked eq s a = record s { tasks = update eq s.tasks a (s.tasks a - 1) }

-- Caller `w` awaits an address that has no task.
record IsOrphaned {A C H Q : Type 0} (a : A) (w : ℕ) (s : System A C H Q) : Type 0 where
  idle : s.tasks a ≡ 0
  slot : holds w (s.inner a) ≡ true
  waits : s.channel w ≡ awaiting a
  single : (b : A) → a ≢ b → s.tasks b ≡ in_flight (s.inner b)
  held : (x : ℕ) (b : A) → holds x (s.inner b) ≡ true → s.channel x ≡ awaiting b
  fresh : (x : ℕ) → s.next ≤ x → s.channel x ≡ unused

module _ {A C H Q : Type 0} (eq : Discrete A) (a : A) (w : ℕ) (s : System A C H Q) (addr : A) where
  requested-IsOrphaned :
      (slot : Option (Slot C H))
      → s.inner addr ≡ slot
      → IsOrphaned a w s
      → IsOrphaned a w (requested eq s addr)
  unfolding requested
  requested-IsOrphaned none at v = record {
    idle = ground arith;
    slot = ground arith;
    waits = ground (arith, v.fresh s.next);
    single = λ b ne. ground (arith, v.single b);
    held = λ x b h. ground (arith, v.held x b, v.fresh s.next);
    fresh = λ x h. ground (arith, v.fresh x);
  }
  requested-IsOrphaned (some (ready e)) at v = record {
    idle = ground arith;
    slot = ground arith;
    waits = ground (arith, v.fresh s.next);
    single = λ b ne. ground (arith, v.single b);
    held = λ x b h. ground (arith, v.held x b, v.fresh s.next);
    fresh = λ x h. ground (arith, v.fresh x);
  }
  requested-IsOrphaned (some (connecting ws)) at v = record {
    idle = ground arith;
    slot = ground (arith, elem-concat w s.next ws);
    waits = ground (arith, v.fresh s.next);
    single = λ b ne. ground (arith, v.single b);
    held = λ x b h. ground (arith, v.held x b, v.fresh s.next, elem-concat x s.next ws);
    fresh = λ x h. ground (arith, v.fresh x);
  }

  invalidated-IsOrphaned :
      (slot : Option (Slot C H))
      → s.inner addr ≡ slot
      → IsOrphaned a w s
      → IsOrphaned a w (invalidated eq s addr)
  unfolding invalidated
  invalidated-IsOrphaned none at v = ground arith
  invalidated-IsOrphaned (some (connecting ws)) at v = ground arith
  invalidated-IsOrphaned (some (ready e)) at v = record {
    idle = v.idle;
    slot = ground arith;
    waits = v.waits;
    single = λ b ne. ground (arith, v.single b);
    held = λ x b h. ground (arith, v.held x b);
    fresh = v.fresh;
  }

module _ {A C H Q : Type 0} ⦃d : Display Q⦄ (eq : Discrete A) (a : A) (w : ℕ)
    (s : System A C H Q) where
  completed-IsOrphaned :
      (addr : A) (res : Result (PoolEntry C H) (ClientError Q)) (slot : Option (Slot C H))
      → s.inner addr ≡ slot
      → a ≢ addr
      → 0 < s.tasks addr
      → IsOrphaned a w s
      → IsOrphaned a w (completed eq s addr res)
  unfolding completed
  completed-IsOrphaned addr res none at ne busy v = absurd (ground (arith, v.single addr))
  completed-IsOrphaned addr res (some (ready e)) at ne busy v =
      absurd (ground (arith, v.single addr))
  completed-IsOrphaned addr (ok entry) (some (connecting ws)) at ne busy v =
      let sent = deliver_lem (send_res (ok entry)) ws s.channel in
      record {
        idle = ground arith;
        slot = ground arith;
        waits = ground (arith, sent w, v.held w addr);
        single = λ b nb. ground (arith, v.single b);
        held = λ x b h. ground (arith, v.held x b, v.held x addr, sent x);
        fresh = λ x h. ground (arith, v.fresh x, v.held x addr, sent x);
      }
  completed-IsOrphaned addr (err e) (some (connecting ws)) at ne busy v =
      let sent = deliver_lem (send_res (err e)) ws s.channel in
      record {
        idle = ground arith;
        slot = ground arith;
        waits = ground (arith, sent w, v.held w addr);
        single = λ b nb. ground (arith, v.single b);
        held = λ x b h. ground (arith, v.held x b, v.held x addr, sent x);
        fresh = λ x h. ground (arith, v.fresh x, v.held x addr, sent x);
      }

module _ {A C H Q : Type 0} ⦃d : Display Q⦄ (eq : Discrete A) (eqc : Discrete C) where
  -- The states that the other callers, tasks and connections can reach from `s`.
  pub data From (s : System A C H Q) : System A C H Q → Type 0 where
    here : From s s
    next : {t u : System A C H Q} → From s t → Step eq eqc t u → From s u

module _ {A C H Q : Type 0} ⦃d : Display Q⦄ {eq : Discrete A} {eqc : Discrete C} where
  Step-IsOrphaned :
      {a : A} {w : ℕ} {s t : System A C H Q} → Step eq eqc s t → IsOrphaned a w s → IsOrphaned a w t
  unfolding closing
  Step-IsOrphaned {a} {w} {s} (request addr) v =
      requested-IsOrphaned eq a w s addr (s.inner addr) refl v
  Step-IsOrphaned {a} {w} {s} (finish addr res busy) v =
      let differ : a ≢ addr = λ p. absurd (ground (arith, v.idle)) in
      completed-IsOrphaned eq a w s addr res (s.inner addr) refl differ busy v
  Step-IsOrphaned {a} {w} {s} (forget addr) v =
      invalidated-IsOrphaned eq a w s addr (s.inner addr) refl v
  Step-IsOrphaned (lose c) v = record {
    idle = v.idle;
    slot = v.slot;
    waits = v.waits;
    single = v.single;
    held = v.held;
    fresh = v.fresh;
  }

  From-IsOrphaned :
      {a : A} {w : ℕ} {s t : System A C H Q} → From eq eqc s t → IsOrphaned a w s → IsOrphaned a w t
  From-IsOrphaned here v = v
  From-IsOrphaned (next r st) v = Step-IsOrphaned st (From-IsOrphaned r v)

  -- After the connection task of an address has panicked, a caller that awaits the address awaits
  -- it for ever: in every state that the others can lead to, the caller still awaits its answer, and
  -- its receiver is pending, neither answered nor told that the sender is gone.
  pub panicked_waits_for_ever :
      {s t : System A C H Q}
      → Reach eq eqc s
      → (a : A) (w : ℕ) → s.channel w ≡ awaiting a
      → From eq eqc (panicked eq s a) t
      → (t.channel w ≡ awaiting a) × (rx_poll t w ≡ pending)
  unfolding panicked rx_poll rx_state
  panicked_waits_for_ever {s} r a w wait path =
      let v = Reach-Inv r in
      let orphan = From-IsOrphaned {a = a} {w = w} path (record {
        idle = ground (arith, v.single a, v.covered w a);
        slot = v.covered w a wait;
        waits = wait;
        single = λ b ne. ground (arith, v.single b);
        held = v.held;
        fresh = v.fresh;
      }) in
      (orphan.waits, ground (arith, orphan.waits, orphan.slot))
