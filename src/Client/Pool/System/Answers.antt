-- ===== src/Client/Pool/System/Answers.antt =====
-- What callers of the pool are answered (crates/grpc-quic-client/src/pool.rs), read off its
-- specification.
use grpc_quic_rs.Common.{ℕ, ◌≡◌, subst, Result, ok, err, Display, ℕ_discrete, arith}
use grpc_quic_rs.Errors.{ClientError, stream_io}
use grpc_quic_rs.Client.Pool.{PoolEntry, send_res}
use grpc_quic_rs.Client.Pool.System.{
  requested, init, System, Channel, unused, awaiting, answered, Reach, start, later,
}
use grpc_quic_rs.Client.Pool.System.Spec.{
  Status, idle, busy, pooled, Spec, wait, ask_at, drop_at, reply, SpecStep, asks, settles, drops,
  closes,
}
use grpc_quic_rs.Client.Pool.System.Refinement.{Step-refines}

-- An answer that is an entry, or an I/O error.
abbrev pub IsPlain : {C H Q : Type 0} → Result (PoolEntry C H) (ClientError Q) → Type 0
IsPlain (ok entry) = Unit
IsPlain (err (stream_io x)) = Unit
IsPlain (err _) = ⊥

abbrev AnsweredPlain : {A C H Q : Type 0} → Channel A C H Q → Type 0
AnsweredPlain unused = Unit
AnsweredPlain (awaiting a) = Unit
AnsweredPlain (answered res) = IsPlain res

module _ {A C H Q : Type 0} ⦃d : Display Q⦄ (eq : Discrete A) where
  send_res-IsPlain : (res : Result (PoolEntry C H) (ClientError Q)) → IsPlain (send_res res)
  unfolding send_res
  send_res-IsPlain (ok entry) = tt
  send_res-IsPlain (err e) = tt

  reply-AnsweredPlain :
      (addr : A) (res : Result (PoolEntry C H) (ClientError Q)) (c : Channel A C H Q)
      → AnsweredPlain c
      → AnsweredPlain (reply eq addr (send_res res) c)
  reply-AnsweredPlain addr res unused h = tt
  reply-AnsweredPlain addr res (awaiting a) h = ground (arith, send_res-IsPlain res)
  reply-AnsweredPlain addr res (answered r) h = h

module _ {A C H Q : Type 0} (eq : Discrete A) where
  wait-AnsweredPlain :
      (s : Spec A C H Q) (addr : A)
      → ((w : ℕ) → AnsweredPlain (s.caller w))
      → (w : ℕ) → AnsweredPlain ((wait eq s addr).caller w)
  wait-AnsweredPlain s addr h w = ground (arith, h w)

  ask-AnsweredPlain :
      (s : Spec A C H Q) (addr : A) (status : Status C H)
      → ((w : ℕ) → AnsweredPlain (s.caller w))
      → (w : ℕ) → AnsweredPlain ((ask_at eq s addr status).caller w)
  ask-AnsweredPlain s addr idle h w = wait-AnsweredPlain s addr h w
  ask-AnsweredPlain s addr busy h w = wait-AnsweredPlain s addr h w
  ask-AnsweredPlain s addr (pooled entry) h w = ground (arith, h w, wait-AnsweredPlain s addr h w)

  drop-AnsweredPlain :
      (s : Spec A C H Q) (addr : A) (status : Status C H)
      → ((w : ℕ) → AnsweredPlain (s.caller w))
      → (w : ℕ) → AnsweredPlain ((drop_at eq s addr status).caller w)
  drop-AnsweredPlain s addr idle h w = h w
  drop-AnsweredPlain s addr busy h w = h w
  drop-AnsweredPlain s addr (pooled entry) h w = ground (arith, h w)

module _ {A C H Q : Type 0} ⦃d : Display Q⦄ {eq : Discrete A} {eqc : Discrete C} where
  SpecStep-AnsweredPlain :
      {s t : Spec A C H Q}
      → SpecStep eq eqc s t
      → ((w : ℕ) → AnsweredPlain (s.caller w))
      → (w : ℕ) → AnsweredPlain (t.caller w)
  SpecStep-AnsweredPlain {s} (asks addr) h w = ask-AnsweredPlain eq s addr (s.status addr) h w
  SpecStep-AnsweredPlain {s} (settles addr res b) h w =
      reply-AnsweredPlain eq addr res (s.caller w) (h w)
  SpecStep-AnsweredPlain {s} (drops addr) h w = drop-AnsweredPlain eq s addr (s.status addr) h w
  SpecStep-AnsweredPlain (closes c) h w = h w

  Reach-AnsweredPlain :
      {s : System A C H Q} → Reach eq eqc s → (w : ℕ) → AnsweredPlain (s.channel w)
  Reach-AnsweredPlain start w = tt
  Reach-AnsweredPlain (later r st) w =
      SpecStep-AnsweredPlain (Step-refines r st) (Reach-AnsweredPlain r) w

  -- In every reachable state, whoever was answered was sent a pooled entry or an I/O error.
  pub answers-IsPlain :
      {s : System A C H Q}
      → Reach eq eqc s
      → (w : ℕ) (res : Result (PoolEntry C H) (ClientError Q)) → s.channel w ≡ answered res
      → IsPlain res
  answers-IsPlain r w res e = subst AnsweredPlain e (Reach-AnsweredPlain r w)

-- The first caller of a new pool waits.
pub first_awaits :
    {A C H Q : Type 0} (eq : Discrete A) (addr : A)
    → (requested {C = C} {H = H} {Q = Q} eq init addr).channel 0 ≡ awaiting addr
unfolding requested ℕ_discrete
first_awaits eq addr = ground arith
