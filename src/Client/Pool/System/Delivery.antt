-- ===== src/Client/Pool/System/Delivery.antt =====
-- Who is answered, and what stays in the pool (crates/grpc-quic-client/src/pool.rs).
use grpc_quic_rs.Common.{
  ℕ, ◌<◌, ◌≡◌, refl, ◌≢◌, List, Option, none, some, Bool, true, false, Result, ok, err, Display,
  arith, ◌∙◌,
}
use grpc_quic_rs.Errors.{ClientError}
use grpc_quic_rs.Client.Pool.{
  PoolEntry, Slot, connecting, ready, Slots, send_res, reuse, get_or_connect,
}
use grpc_quic_rs.Client.Pool.System.{
  awaiting, answered, System, holds, completed, closing, requested, invalidated, Step, request,
  finish, forget, lose, Reach,
}
use grpc_quic_rs.Client.Pool.System.Invariant.{Reach-Inv, Inv, deliver_lem}

-- The slot that a connection task leaves behind.
abbrev pub pooled : {C H Q : Type 0} → Result (PoolEntry C H) (ClientError Q) → Option (Slot C H)
pooled (ok entry) = some (ready entry)
pooled (err e) = none

module _ {A C H Q : Type 0} ⦃d : Display Q⦄ (eq : Discrete A) where
  -- The slot of an address with a running task.
  pub connecting_slot :
      (s : System A C H Q) (a : A)
      → Inv s
      → 0 < s.tasks a
      → (slot : Option (Slot C H)) → s.inner a ≡ slot
      → (ws : List ℕ) × (s.inner a ≡ some (connecting ws))
  connecting_slot s a v busy none e = absurd (ground (arith, v.single a))
  connecting_slot s a v busy (some (ready x)) e = absurd (ground (arith, v.single a))
  connecting_slot s a v busy (some (connecting ws)) e = (ws, e)

  pub completed_lem :
      (s : System A C H Q) (a : A) (res : Result (PoolEntry C H) (ClientError Q)) (ws : List ℕ)
      → s.inner a ≡ some (connecting ws)
      → (w : ℕ)
      → ((completed eq s a res).channel w
          ≡ (elim (holds w (s.inner a)) [ true ↦ answered (send_res res) | false ↦ s.channel w ]))
        × ((completed eq s a res).inner a ≡ pooled res)
  unfolding completed
  completed_lem s a (ok entry) ws e w =
      ground (arith, deliver_lem (send_res (ok entry)) ws s.channel w)
  completed_lem s a (err x) ws e w = ground (arith, deliver_lem (send_res (err x)) ws s.channel w)

  pub completed_frame :
      (s : System A C H Q) (a : A) (res : Result (PoolEntry C H) (ClientError Q)) (ws : List ℕ)
      → s.inner a ≡ some (connecting ws)
      → (b : A) → a ≢ b
      → (completed eq s a res).inner b ≡ s.inner b
  unfolding completed
  completed_frame s a (ok entry) ws e b ne = ground arith
  completed_frame s a (err x) ws e b ne = ground arith

module _ {A C H Q : Type 0} (eq : Discrete A) where
  awaited_busy :
      (s : System A C H Q) (a : A) (w : ℕ)
      → Inv s
      → s.channel w ≡ awaiting a
      → (slot : Option (Slot C H)) → s.inner a ≡ slot
      → 0 < s.tasks a
  awaited_busy s a w v wait none e = absurd (ground (arith, v.covered w a))
  awaited_busy s a w v wait (some (ready x)) e = absurd (ground (arith, v.covered w a))
  awaited_busy s a w v wait (some (connecting ws)) e = ground (arith, v.single a)

  requested_keeps :
      (s : System A C H Q) (addr a : A) (entry : PoolEntry C H)
      → s.inner a ≡ some (ready entry)
      → s.is_closed entry.quic ≡ false
      → (slot : Option (Slot C H)) → s.inner addr ≡ slot
      → (requested eq s addr).inner a ≡ some (ready entry)
  unfolding requested
  requested_keeps s addr a entry e alive none at = ground arith
  requested_keeps s addr a entry e alive (some (ready x)) at = ground arith
  requested_keeps s addr a entry e alive (some (connecting ws)) at = ground arith

  requested_open :
      (s : System A C H Q) (addr : A) (slot : Option (Slot C H))
      → s.inner addr ≡ slot
      → (requested eq s addr).is_closed ≡ s.is_closed
  unfolding requested
  requested_open s addr none at = ground arith
  requested_open s addr (some (ready x)) at = ground arith
  requested_open s addr (some (connecting ws)) at = ground arith

  invalidated_keeps :
      (s : System A C H Q) (addr a : A) (entry : PoolEntry C H)
      → s.inner a ≡ some (ready entry)
      → s.is_closed entry.quic ≡ false
      → (slot : Option (Slot C H)) → s.inner addr ≡ slot
      → (invalidated eq s addr).inner a ≡ some (ready entry)
  unfolding invalidated
  invalidated_keeps s addr a entry e alive none at = ground arith
  invalidated_keeps s addr a entry e alive (some (ready x)) at = ground arith
  invalidated_keeps s addr a entry e alive (some (connecting ws)) at = ground arith

module _ {A C H Q : Type 0} ⦃d : Display Q⦄ {eq : Discrete A} {eqc : Discrete C} where
  -- When the connection task of an address ends, every caller that awaits the address is answered
  -- with the task's outcome, an error as its text in a new error; the slot then holds the entry, or
  -- is free after an error.
  pub finish_answers :
      {s : System A C H Q}
      → Reach eq eqc s
      → (a : A) → 0 < s.tasks a
      → (res : Result (PoolEntry C H) (ClientError Q)) → (w : ℕ) → s.channel w ≡ awaiting a
      → ((completed eq s a res).channel w ≡ answered (send_res res))
        × ((completed eq s a res).inner a ≡ pooled res)
  finish_answers {s} r a busy res w wait =
      let v = Reach-Inv r in
      let (ws, e) = connecting_slot eq s a v busy (s.inner a) refl in
      ground (arith, completed_lem eq s a res ws e w, v.covered w a)

  -- Channels that do not await the address keep their state, and so do the slots of other addresses.
  pub finish_others :
      {s : System A C H Q}
      → Reach eq eqc s
      → (a : A) → 0 < s.tasks a
      → (res : Result (PoolEntry C H) (ClientError Q)) → (w : ℕ) → s.channel w ≢ awaiting a
      → (b : A) → a ≢ b
      → ((completed eq s a res).channel w ≡ s.channel w)
        × ((completed eq s a res).inner b ≡ s.inner b)
  finish_others {s} r a busy res w other b ne =
      let v = Reach-Inv r in
      let (ws, e) = connecting_slot eq s a v busy (s.inner a) refl in
      (
        ground (arith, completed_lem eq s a res ws e w, v.held w a),
        completed_frame eq s a res ws e b ne,
      )

  -- No caller is forgotten: while it awaits an address, whatever the outcome of a connection task
  -- for that address is, there is a step that answers the caller with it.
  pub awaiting_is_served :
      {s : System A C H Q}
      → Reach eq eqc s
      → (a : A) (w : ℕ) → s.channel w ≡ awaiting a
      → (res : Result (PoolEntry C H) (ClientError Q))
      → (t : System A C H Q) × Step eq eqc s t × (t.channel w ≡ answered (send_res res))
  awaiting_is_served {s} r a w wait res =
      let busy = awaited_busy eq s a w (Reach-Inv r) wait (s.inner a) refl in
      (completed eq s a res, finish a res busy, (finish_answers r a busy res w wait).0)

  -- A pooled connection that is still open after a step is still in its slot.
  pub open_stays_pooled :
      {s t : System A C H Q}
      → Reach eq eqc s
      → Step eq eqc s t
      → (a : A) (entry : PoolEntry C H) → s.inner a ≡ some (ready entry)
      → t.is_closed entry.quic ≡ false
      → t.inner a ≡ some (ready entry)
  unfolding invalidated completed closing
  open_stays_pooled {s} r (request addr) a entry e alive =
      requested_keeps eq s addr a entry e
        (rw (requested_open eq s addr (s.inner addr) refl) at alive) (s.inner addr) refl
  open_stays_pooled {s} r (finish addr res busy) a entry e alive =
      let (ws, at) = connecting_slot eq s addr (Reach-Inv r) busy (s.inner addr) refl in
      let differ : addr ≢ a = λ p. ground arith in completed_frame eq s addr res ws at a differ ∙ e
  open_stays_pooled {s} r (forget addr) a entry e alive =
      invalidated_keeps eq s addr a entry e alive (s.inner addr) refl
  open_stays_pooled r (lose c) a entry e alive = e

module _ {A C H : Type 0} (eq : Discrete A) where
  reuse_by_slot :
      (is_closed : C → Bool) (addr : A) (tx : ℕ) (inner : Slots A C H) (entry : PoolEntry C H)
      (slot : Option (Slot C H))
      → inner addr ≡ slot
      → (get_or_connect eq is_closed addr tx inner).1 ≡ reuse entry
      → (slot ≡ some (ready entry))
        × (is_closed entry.quic ≡ false)
        × ((get_or_connect eq is_closed addr tx inner).0 ≡ inner)
  unfolding get_or_connect
  reuse_by_slot is_closed addr tx inner entry none at e = ground arith
  reuse_by_slot is_closed addr tx inner entry (some (ready x)) at e = ground arith
  reuse_by_slot is_closed addr tx inner entry (some (connecting ws)) at e = ground arith

  -- `get_or_connect` hands out a pooled entry only if its connection is open at the time, and then
  -- it is the one of the address, and the pool is as before.
  pub reuse_is_open :
      (is_closed : C → Bool) (addr : A) (tx : ℕ) (inner : Slots A C H) (entry : PoolEntry C H)
      → (get_or_connect eq is_closed addr tx inner).1 ≡ reuse entry
      → (inner addr ≡ some (ready entry))
        × (is_closed entry.quic ≡ false)
        × ((get_or_connect eq is_closed addr tx inner).0 ≡ inner)
  reuse_is_open is_closed addr tx inner entry e =
      reuse_by_slot is_closed addr tx inner entry (inner addr) refl e
