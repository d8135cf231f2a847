-- ===== src/Client/Call/Pooled.antt =====
-- Calls over the pool (crates/grpc-quic-client/src/channel.rs and pool.rs): which errors they can
-- end with, when every answer of the pool is one that the pool can give.
use grpc_quic_rs.Common.{
  ℕ, zero, suc, String, Option, none, some, Bool, true, false, Result, ok, err, Display, Bytes, ◌≡◌,
  refl, sym, subst, inl, inr, arith,
}
use grpc_quic_rs.Core.Http.{HeaderMap}
use grpc_quic_rs.Errors.{
  ClientError, transport, retries_exhausted, closed, stream_io, invalid_response, request_build,
  core_error_display,
}
use grpc_quic_rs.Client.Pool.{PoolEntry, ready}
use grpc_quic_rs.Client.Pool.System.{System, answered, Reach}
use grpc_quic_rs.Client.Pool.System.Answers.{IsPlain, answers-IsPlain}
use grpc_quic_rs.Client.Retry.{Float, RetryPolicy}
use grpc_quic_rs.Client.Call.{Parts, World, Outcome, rpc_future, timeout_at, call, deadline_of}
use grpc_quic_rs.Client.Call.Failure.{
  IsFatal, build, answer, IsRetried, pool, send, IsLast, call_fails,
}

-- What `get_or_connect` can return to a caller: a pooled entry, or what its channel is answered.
pub data IsPoolAnswer {A C H Q : Type 0} ⦃d : Display Q⦄ (eq : Discrete A) (eqc : Discrete C)
    : Result (PoolEntry C H) (ClientError Q) → Type 0 where
  reused :
      {s : System A C H Q} (a : A) (entry : PoolEntry C H)
      → Reach eq eqc s
      → s.inner a ≡ some (ready entry)
      → IsPoolAnswer eq eqc (ok entry)
  received :
      {s : System A C H Q} (w : ℕ) (res : Result (PoolEntry C H) (ClientError Q))
      → Reach eq eqc s
      → s.channel w ≡ answered res
      → IsPoolAnswer eq eqc res

IsPoolAnswer-IsPlain :
    {A C H Q : Type 0} ⦃d : Display Q⦄ {eq : Discrete A} {eqc : Discrete C}
    {res : Result (PoolEntry C H) (ClientError Q)}
    → IsPoolAnswer eq eqc res
    → IsPlain res
IsPoolAnswer-IsPlain (reused a entry r at) = tt
IsPoolAnswer-IsPlain (received w res r e) = answers-IsPlain r w res e

-- The errors of a call, by its policy's number of attempts.
abbrev pub IsCallError : {Q : Type 0} → ℕ → ClientError Q → Type 0
IsCallError n (transport e) = ⊥
IsCallError n (retries_exhausted k last) = (n ≡ 0) × (k ≡ 0)
IsCallError n closed = Unit
IsCallError n (stream_io x) = Unit
IsCallError n (invalid_response s) = ⊥
IsCallError n (request_build s) = Unit

plain_error :
    (C H : Type 0) {Q : Type 0} (n : ℕ) (e : ClientError Q)
    → IsPlain {C = C} {H = H} (err e)
    → IsCallError n e
plain_error C H n (transport x) h = h
plain_error C H n (retries_exhausted k last) h = absurd h
plain_error C H n closed h = tt
plain_error C H n (stream_io x) h = tt
plain_error C H n (invalid_response s) h = h
plain_error C H n (request_build s) h = tt

module _ {A C H3 M S T E Q : Type 0} ⦃d : Display E⦄ ⦃q : Display Q⦄ {eq : Discrete A}
    {eqc : Discrete C} (m : HeaderMap) (f : Float) (w : World C H3 M m.H S T E Q)
    (retry : RetryPolicy f.F) (remote : A) (server_name : String)
    (pooling : (n : ℕ) → IsPoolAnswer {H = H3} eq eqc (w.pool n)) where
  module _ (deadline : Option ℕ) (parts : Parts M m.H) where
    fatal_error :
        (e : ClientError Q)
        → IsFatal m f w retry remote server_name deadline parts e
        → IsCallError retry.max_attempts e
    fatal_error e (build x h p) = subst (IsCallError retry.max_attempts) (sym p) tt
    fatal_error e (answer n recv x h p) = subst (IsCallError retry.max_attempts) (sym p) tt

    retried_error :
        (n : ℕ) (e : ClientError Q)
        → IsRetried m f w retry remote server_name deadline parts n e
        → IsCallError retry.max_attempts e
    retried_error n e (pool h) =
        plain_error C H3 retry.max_attempts e (subst IsPlain h (IsPoolAnswer-IsPlain (pooling n)))
    retried_error n e (send entry x h p) = subst (IsCallError retry.max_attempts) (sym p) tt

    last_error :
        (k : ℕ)
        → retry.max_attempts ≡ k
        → (e : ClientError Q) → IsLast m f w retry remote server_name deadline parts k 0 none e
        → IsCallError retry.max_attempts e
    last_error zero h e l = subst (IsCallError retry.max_attempts) (sym l) (h, h)
    last_error (suc k) h e l = retried_error _ e l

    rpc_error :
        (permit : Bool) (e : ClientError Q)
        → (rpc_future m f w retry remote server_name deadline parts permit).1 ≡ err e
        → IsCallError retry.max_attempts e
    unfolding rpc_future
    rpc_error false e h = ground arith
    rpc_error true e h = elim (call_fails m f w retry remote server_name deadline parts e h) [
      | inl fatal ↦ fatal_error e fatal
      | inr (g, l) ↦ last_error retry.max_attempts refl e l
    ]

    expired_error :
        (expired : Option ℕ) (o : Outcome m f w retry remote server_name deadline parts)
        → ((e : ClientError Q) → o.1 ≡ err e → IsCallError retry.max_attempts e)
        → (dl : Option ℕ) (e : ClientError Q)
        → (timeout_at m f w retry remote server_name deadline parts dl expired o).1 ≡ err e
        → IsCallError retry.max_attempts e
    unfolding timeout_at
    expired_error expired o h none e p = h e p
    expired_error none o h (some dl) e p = h e p
    expired_error (some n) o h (some dl) e p = ground arith

  -- A call over the pool, with or without a permit and a deadline, never ends with `Transport` or
  -- `InvalidResponse`, though connections fail with the former: it ends with an I/O error, with a
  -- request that cannot be built or that is late, with a closed channel, or, only if the policy
  -- allows no attempt, with `RetriesExhausted` after 0 attempts.
  pub call_errors :
      (now : ℕ) (to_str : Bytes → Option Bytes) (permit : Bool) (expired : Option ℕ)
      (parts : Parts M m.H) (e : ClientError Q)
      → (call m f w retry remote server_name now to_str permit expired parts).1 ≡ err e
      → IsCallError retry.max_attempts e
  unfolding call
  call_errors now to_str permit expired parts e h =
      let deadline = deadline_of now to_str (m.get parts.headers "grpc-timeout") in
      expired_error deadline parts expired
        (rpc_future m f w retry remote server_name deadline parts permit)
        (rpc_error deadline parts permit) deadline e h
