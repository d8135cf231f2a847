-- ===== src/Client/Pool/System/Invariant.antt =====
-- What holds of the pool (crates/grpc-quic-client/src/pool.rs) between two critical sections.
use grpc_quic_rs.Common.{
  ℕ, ◌≤◌, ◌<◌, ◌≡◌, refl, List, [], ◌∷◌, ◌++◌, map, Option, none, some, true, ◌||◌, ◌==◌, Result,
  ok, err, Display, update, ℕ_discrete, elem, arith, if◌then◌else◌,
}
use grpc_quic_rs.Errors.{ClientError}
use grpc_quic_rs.Client.Pool.{PoolEntry, Slot, connecting, ready, send_res}
use grpc_quic_rs.Client.Pool.System.{
  Channel, unused, awaiting, answered, System, holds, deliver, requested, completed, invalidated,
  closing, Step, request, finish, forget, lose, Reach, start, later,
}

-- The tasks that a slot stands for.
abbrev pub in_flight : {C H : Type 0} → Option (Slot C H) → ℕ
in_flight none = 0
in_flight (some (ready e)) = 0
in_flight (some (connecting ws)) = 1

pub elem-concat : (w x : ℕ) (ws : List ℕ) → elem w (ws ++ x ∷ []) ≡ (elem w ws || w == x)
elem-concat w x [] = ground arith
elem-concat w x (y ∷ ws) = ground (arith, elem-concat w x ws)

pub record Inv {A C H Q : Type 0} (s : System A C H Q) : Type 0 where
  pub single : (a : A) → s.tasks a ≡ in_flight (s.inner a)
  pub held : (w : ℕ) (a : A) → holds w (s.inner a) ≡ true → s.channel w ≡ awaiting a
  pub covered : (w : ℕ) (a : A) → s.channel w ≡ awaiting a → holds w (s.inner a) ≡ true
  pub fresh : (w : ℕ) → s.next ≤ w → s.channel w ≡ unused

module _ {A C H Q : Type 0} where
  pub deliver_lem :
      (res : Result (PoolEntry C H) (ClientError Q)) (ws : List ℕ) (ch : ℕ → Channel A C H Q)
      (w : ℕ)
      → deliver (map (λ tx. (tx, res)) ws) ch w ≡ (if elem w ws then answered res else ch w)
  unfolding deliver
  deliver_lem res [] ch w = refl
  deliver_lem res (x ∷ ws) ch w =
      ground (arith, deliver_lem res ws (update ℕ_discrete ch x (answered res)) w)

module _ {A C H Q : Type 0} (eq : Discrete A) where
  requested-Inv :
      (s : System A C H Q) (addr : A) (slot : Option (Slot C H))
      → s.inner addr ≡ slot
      → Inv s
      → Inv (requested eq s addr)
  unfolding requested
  requested-Inv s addr none e v = record {
    single = λ a. ground (arith, v.single a);
    held = λ w a h. ground (arith, v.held w a, v.fresh s.next);
    covered = λ w a h. ground (arith, v.covered w a);
    fresh = λ w h. ground (arith, v.fresh w);
  }
  requested-Inv s addr (some (connecting ws)) e v = record {
    single = λ a. ground (arith, v.single a);
    held = λ w a h. ground (arith, v.held w a, v.fresh s.next, elem-concat w s.next ws);
    covered = λ w a h. ground (arith, v.covered w a, elem-concat w s.next ws);
    fresh = λ w h. ground (arith, v.fresh w);
  }
  requested-Inv s addr (some (ready entry)) e v = record {
    single = λ a. ground (arith, v.single a);
    held = λ w a h. ground (arith, v.held w a, v.fresh s.next);
    covered = λ w a h. ground (arith, v.covered w a);
    fresh = λ w h. ground (arith, v.fresh w);
  }

  invalidated-Inv :
      (s : System A C H Q) (addr : A) (slot : Option (Slot C H))
      → s.inner addr ≡ slot
      → Inv s
      → Inv (invalidated eq s addr)
  unfolding invalidated
  invalidated-Inv s addr none e v = ground arith
  invalidated-Inv s addr (some (connecting ws)) e v = ground arith
  invalidated-Inv s addr (some (ready entry)) e v = record {
    single = λ a. ground (arith, v.single a);
    held = λ w a h. ground (arith, v.held w a);
    covered = λ w a h. ground (arith, v.covered w a);
    fresh = v.fresh;
  }

module _ {A C H Q : Type 0} ⦃d : Display Q⦄ (eq : Discrete A) where
  completed-Inv :
      (s : System A C H Q) (addr : A) (res : Result (PoolEntry C H) (ClientError Q))
      (slot : Option (Slot C H))
      → s.inner addr ≡ slot
      → 0 < s.tasks addr
      → Inv s
      → Inv (completed eq s addr res)
  unfolding completed
  completed-Inv s addr res none e busy v = absurd (ground (arith, v.single addr))
  completed-Inv s addr res (some (ready entry)) e busy v = absurd (ground (arith, v.single addr))
  completed-Inv s addr (ok entry) (some (connecting ws)) e busy v =
      let sent = deliver_lem (send_res (ok entry)) ws s.channel in
      record {
        single = λ a. ground (arith, v.single a);
        held = λ w a h. ground (arith, v.held w a, v.held w addr, sent w);
        covered = λ w a h. ground (arith, v.covered w a, v.held w addr, sent w);
        fresh = λ w h. ground (arith, v.fresh w, v.held w addr, sent w);
      }
  completed-Inv s addr (err x) (some (connecting ws)) e busy v =
      let sent = deliver_lem (send_res (err x)) ws s.channel in
      record {
        single = λ a. ground (arith, v.single a);
        held = λ w a h. ground (arith, v.held w a, v.held w addr, sent w);
        covered = λ w a h. ground (arith, v.covered w a, v.held w addr, sent w);
        fresh = λ w h. ground (arith, v.fresh w, v.held w addr, sent w);
      }

-- Every critical section and every closing connection keeps the pool's invariant.
module _ {A C H Q : Type 0} ⦃d : Display Q⦄ {eq : Discrete A} {eqc : Discrete C} where
  pub Step-Inv : {s t : System A C H Q} → Step eq eqc s t → Inv s → Inv t
  unfolding closing
  Step-Inv {s} (request addr) v = requested-Inv eq s addr (s.inner addr) refl v
  Step-Inv {s} (finish addr res busy) v = completed-Inv eq s addr res (s.inner addr) refl busy v
  Step-Inv {s} (forget addr) v = invalidated-Inv eq s addr (s.inner addr) refl v
  Step-Inv (lose c) v = record {
    single = v.single;
    held = v.held;
    covered = v.covered;
    fresh = v.fresh;
  }

  -- In every reachable state: an address has a connection task exactly while its slot is
  -- `connecting`, and then one; a channel is awaited for an address exactly if that address's slot
  -- holds its sender; and channels not made yet are unused.
  pub Reach-Inv : {s : System A C H Q} → Reach eq eqc s → Inv s
  Reach-Inv start = record {
    single = λ a. refl;
    held = λ w a h. cc;
    covered = λ w a h. cc;
    fresh = λ w h. refl;
  }
  Reach-Inv (later r st) = Step-Inv st (Reach-Inv r)
