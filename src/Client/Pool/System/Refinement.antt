-- ===== src/Client/Pool/System/Refinement.antt =====
-- The pool of crates/grpc-quic-client/src/pool.rs implements its specification.
use grpc_quic_rs.Common.{
  ℕ, ◌≡◌, refl, sym, ap, subst, fun_ext, ◌<◌, Option, none, some, Result, ok, err, Display, update,
  arith, List,
}
use grpc_quic_rs.Errors.{ClientError}
use grpc_quic_rs.Client.Pool.{PoolEntry, Slot, connecting, ready, send_res}
use grpc_quic_rs.Client.Pool.System.{
  System, Channel, unused, awaiting, answered, requested, invalidated, completed, closing, Step,
  request, finish, forget, lose, Reach,
}
use grpc_quic_rs.Client.Pool.System.Invariant.{Inv, Reach-Inv}
use grpc_quic_rs.Client.Pool.System.Delivery.{connecting_slot, completed_lem, completed_frame}
use grpc_quic_rs.Client.Pool.System.Spec.{
  Status, idle, busy, pooled, Spec, ask, drop, settle, outcome, reply, SpecStep, asks, settles,
  drops, closes,
}

-- How a slot is seen.
abbrev pub view : {C H : Type 0} → Option (Slot C H) → Status C H
view none = idle
view (some (connecting ws)) = busy
view (some (ready entry)) = pooled entry

abbrev pub abstraction : {A C H Q : Type 0} → System A C H Q → Spec A C H Q
abstraction s = record {
  status = λ a. view (s.inner a);
  caller = s.channel;
  next = s.next;
  is_closed = s.is_closed;
}

module _ {A C H Q : Type 0} where
  Spec-ext :
      (s t : Spec A C H Q)
      → ((a : A) → s.status a ≡ t.status a)
      → ((w : ℕ) → s.caller w ≡ t.caller w)
      → s.next ≡ t.next
      → s.is_closed ≡ t.is_closed
      → s ≡ t
  Spec-ext s t p q r u = let p' = fun_ext p in let q' = fun_ext q in cc

module _ {A C H Q : Type 0} where
  busy_task :
      (s : System A C H Q) (addr : A)
      → Inv s
      → (slot : Option (Slot C H)) → s.inner addr ≡ slot
      → view (s.inner addr) ≡ busy
      → 0 < s.tasks addr
  busy_task s addr v none at h = absurd (ground arith)
  busy_task s addr v (some (connecting ws)) at h = ground (arith, v.single addr)
  busy_task s addr v (some (ready entry)) at h = absurd (ground arith)

module _ {A C H Q : Type 0} (eq : Discrete A) where
  abstraction-requested :
      (s : System A C H Q) (addr : A) (slot : Option (Slot C H))
      → s.inner addr ≡ slot
      → abstraction (requested eq s addr) ≡ ask eq (abstraction s) addr
  unfolding requested
  abstraction-requested s addr none at =
      Spec-ext _ _ (λ a. ground arith) (λ w. ground arith) (ground arith) (ground arith)
  abstraction-requested s addr (some (connecting ws)) at =
      Spec-ext _ _ (λ a. ground arith) (λ w. ground arith) (ground arith) (ground arith)
  abstraction-requested s addr (some (ready entry)) at =
      Spec-ext _ _ (λ a. ground arith) (λ w. ground arith) (ground arith) (ground arith)

  abstraction-invalidated :
      (s : System A C H Q) (addr : A) (slot : Option (Slot C H))
      → s.inner addr ≡ slot
      → abstraction (invalidated eq s addr) ≡ drop eq (abstraction s) addr
  unfolding invalidated
  abstraction-invalidated s addr none at =
      Spec-ext _ _ (λ a. ground arith) (λ w. ground arith) (ground arith) (ground arith)
  abstraction-invalidated s addr (some (connecting ws)) at =
      Spec-ext _ _ (λ a. ground arith) (λ w. ground arith) (ground arith) (ground arith)
  abstraction-invalidated s addr (some (ready entry)) at =
      Spec-ext _ _ (λ a. ground arith) (λ w. ground arith) (ground arith) (ground arith)

module _ {A C H Q : Type 0} ⦃d : Display Q⦄ (eq : Discrete A) where
  -- Who waits for an address is exactly who is answered.
  completed_caller :
      (s : System A C H Q) (addr : A) (res : Result (PoolEntry C H) (ClientError Q)) (ws : List ℕ)
      → Inv s
      → s.inner addr ≡ some (connecting ws)
      → (w : ℕ) (channel : Channel A C H Q) → s.channel w ≡ channel
      → (completed eq s addr res).channel w ≡ reply eq addr (send_res res) channel
  completed_caller s addr res ws v at w unused e =
      ground (arith, completed_lem eq s addr res ws at w, v.held w addr)
  completed_caller s addr res ws v at w (awaiting a) e =
      ground (arith, completed_lem eq s addr res ws at w, v.held w addr, v.covered w addr)
  completed_caller s addr res ws v at w (answered r) e =
      ground (arith, completed_lem eq s addr res ws at w, v.held w addr)

  completed_status :
      (s : System A C H Q) (addr : A) (res : Result (PoolEntry C H) (ClientError Q)) (ws : List ℕ)
      → s.inner addr ≡ some (connecting ws)
      → (a : A)
      → view ((completed eq s addr res).inner a)
        ≡ update eq (λ b. view (s.inner b)) addr (outcome res) a
  completed_status s addr (ok entry) ws at a = ground (
    arith,
    completed_lem eq s addr (ok entry) ws at 0,
    completed_frame eq s addr (ok entry) ws at a,
  )
  completed_status s addr (err x) ws at a =
      ground
        (arith, completed_lem eq s addr (err x) ws at 0, completed_frame eq s addr (err x) ws at a)

  abstraction-completed :
      (s : System A C H Q) (addr : A) (res : Result (PoolEntry C H) (ClientError Q)) (ws : List ℕ)
      → Inv s
      → s.inner addr ≡ some (connecting ws)
      → abstraction (completed eq s addr res) ≡ settle eq (abstraction s) addr res
  unfolding completed
  abstraction-completed s addr res ws v at =
      Spec-ext _ _ (completed_status s addr res ws at)
        (λ w. completed_caller s addr res ws v at w (s.channel w) refl) refl refl

module _ {A C H Q : Type 0} ⦃d : Display Q⦄ {eq : Discrete A} {eqc : Discrete C} where
  pub Step-refines :
      {s t : System A C H Q}
      → Reach eq eqc s
      → Step eq eqc s t
      → SpecStep eq eqc (abstraction s) (abstraction t)
  unfolding closing
  Step-refines {s} r (request addr) =
      subst (SpecStep eq eqc (abstraction s))
        (sym (abstraction-requested eq s addr (s.inner addr) refl)) (asks addr)
  Step-refines {s} r (finish addr res running) =
      let (ws, at) = connecting_slot eq s addr (Reach-Inv r) running (s.inner addr) refl in
      subst (SpecStep eq eqc (abstraction s))
        (sym (abstraction-completed eq s addr res ws (Reach-Inv r) at))
        (settles addr res (ap view at))
  Step-refines {s} r (forget addr) =
      subst (SpecStep eq eqc (abstraction s))
        (sym (abstraction-invalidated eq s addr (s.inner addr) refl)) (drops addr)
  Step-refines r (lose c) = closes c

  -- Whatever the specification of the pool allows in the view of a reachable state, the pool can
  -- do: a connection task of a busy address is running, so its outcome can come.
  pub SpecStep-realised :
      {s : System A C H Q} {u : Spec A C H Q}
      → Reach eq eqc s
      → SpecStep eq eqc (abstraction s) u
      → (t : System A C H Q) × Step eq eqc s t × (abstraction t ≡ u)
  unfolding closing
  SpecStep-realised {s} r (asks addr) =
      (requested eq s addr, request addr, abstraction-requested eq s addr (s.inner addr) refl)
  SpecStep-realised {s} r (settles addr res h) =
      let v = Reach-Inv r in
      let running = busy_task s addr v (s.inner addr) refl h in
      let (ws, at) = connecting_slot eq s addr v running (s.inner addr) refl in
      (
        completed eq s addr res,
        finish addr res running,
        abstraction-completed eq s addr res ws v at,
      )
  SpecStep-realised {s} r (drops addr) =
      (invalidated eq s addr, forget addr, abstraction-invalidated eq s addr (s.inner addr) refl)
  SpecStep-realised {s} r (closes c) = (closing eqc s c, lose c, refl)
