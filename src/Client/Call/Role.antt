-- ===== src/Client/Call/Role.antt =====
-- Calls of a channel whose TLS configuration is a server's
-- (crates/grpc-quic-client/src/channel.rs and pool.rs, crates/grpc-quic-transport/src/endpoint.rs
-- and tls.rs).
use grpc_quic_rs.Common.{
  ℕ, zero, suc, ◌-◌, String, List, [], ◌∷◌, ◌++◌, Option, none, some, true, Result, err, Display,
  io_other, ◌≡◌, refl, ap, ◌∙◌, sym, subst, arith,
}
use grpc_quic_rs.Core.Http.{HeaderMap}
use grpc_quic_rs.Errors.{ClientError, CoreError, tls, transport, stream_io, core_error_display}
use grpc_quic_rs.Transport.Tls.{ServerConfig, server, client_config}
use grpc_quic_rs.Transport.Endpoint
use grpc_quic_rs.Transport.Endpoint.{Quinn}
use grpc_quic_rs.Client.Pool.{establish, send_res}
use grpc_quic_rs.Client.Retry.{Float, RetryPolicy, backoff_for}
use grpc_quic_rs.Client.Call.Attempts.{gets, sleeps, from, call_sleeps}
use grpc_quic_rs.Client.Call.{
  Parts, H3Request, Event, get_or_connect, invalidate, send_request, World, Outcome, then, pause,
  attempts, on_entry, rpc_future, connect_fn,
}

-- The requests that events send.
abbrev pub sent : {A M H : Type 0} → List (Event A M H) → List (H3Request M H)
sent [] = []
sent (send_request req ∷ es) = req ∷ sent es
sent (_ ∷ es) = sent es

-- An endpoint of a client is never made from a server's configuration, whatever quinn does.
connect_fn-server :
    {X Y Q : Type 0} (q : Quinn X Y Q) (c : ServerConfig X) (server_name : String) (addr : q.A)
    → connect_fn (Endpoint.client q) (Endpoint.connect q) (server c) server_name addr
      ≡ err (transport (tls "expected client config"))
unfolding client_config
connect_fn-server q c server_name addr = refl

module _ {A C H3 M S T E Q : Type 0} ⦃d : Display E⦄ (m : HeaderMap) (f : Float)
    (w : World C H3 M m.H S T E Q) (retry : RetryPolicy f.F) (remote : A) (server_name : String)
    (deadline : Option ℕ) (parts : Parts M m.H) where
  abbrev Out : Type 0
  Out = Outcome m f w retry remote server_name deadline parts

  abbrev loop : ℕ → ℕ → Option (ClientError Q) → Out
  loop = attempts m f w retry remote server_name deadline parts

  abbrev before : ℕ → List (Event A M m.H)
  before n = pause m f w retry remote server_name deadline parts n ++ get_or_connect remote ∷ []

  -- An attempt without a connection, before what comes next.
  abbrev vain : ℕ → Out → Out
  vain n next = then (before n) (then (invalidate remote ∷ []) next)

  loop-vain :
      (x : ClientError Q)
      → ((n : ℕ) → w.pool n ≡ err x)
      → (left n : ℕ) (last : Option (ClientError Q))
      → loop (suc left) n last ≡ vain n (loop left (suc n) (some x))
  unfolding attempts on_entry
  loop-vain x h left n last = rw (h n) refl

  loop_over : (n : ℕ) (x : ClientError Q) → loop zero n (some x) ≡ ([], err x)
  unfolding attempts
  loop_over n x = refl

  vain_lem :
      (n : ℕ) (next : Out)
      → ((vain n next).1 ≡ next.1)
        × (gets (vain n next).0 ≡ suc (gets next.0))
        × (sent (vain n next).0 ≡ sent next.0)
  unfolding pause
  vain_lem zero next = (refl, refl, refl)
  vain_lem (suc n) next = (refl, refl, refl)

  never_connects :
      (x : ClientError Q)
      → ((n : ℕ) → w.pool n ≡ err x)
      → (left n : ℕ) (last : Option (ClientError Q))
      → ((loop (suc left) n last).1 ≡ err x)
        × (gets (loop (suc left) n last).0 ≡ suc left)
        × (sent (loop (suc left) n last).0 ≡ [])
  never_connects x h zero n last =
      let (r, g, s) = vain_lem n (loop zero (suc n) (some x)) in
      let over = loop_over (suc n) x in
      rw (loop-vain x h zero n last) (
        r ∙ ap (λ (o : Out). o.1) over,
        g ∙ ap (λ (o : Out). suc (gets o.0)) over,
        s ∙ ap (λ (o : Out). sent o.0) over,
      )
  never_connects x h (suc left) n last =
      let (r, g, s) = vain_lem n (loop (suc left) (suc n) (some x)) in
      let (r', g', s') = never_connects x h left (suc n) (some x) in
      rw (loop-vain x h (suc left) n last) (r ∙ r', g ∙ ap suc g', s ∙ s')

  never_called :
      (x : ClientError Q)
      → ((n : ℕ) → w.pool n ≡ err x)
      → (k most : ℕ) → most ≡ suc k
      → ((loop most 0 none).1 ≡ err x)
        × (gets (loop most 0 none).0 ≡ suc k)
        × (sent (loop most 0 none).0 ≡ [])
  never_called x h k most e =
      subst
        (λ l.
          ((loop l 0 none).1 ≡ err x)
          × (gets (loop l 0 none).0 ≡ suc k)
          × (sent (loop l 0 none).0 ≡ []))
        (sym e) (never_connects x h k 0 none)

module _ {H3 M S T E X Y Q : Type 0} ⦃d : Display E⦄ ⦃p : Display Q⦄ (m : HeaderMap) (f : Float)
    (q : Quinn X Y Q) (w : World q.C H3 M m.H S T E Q) (retry : RetryPolicy f.F) (remote : q.A)
    (server_name : String) (deadline : Option ℕ) (parts : Parts M m.H) where
  -- Suppose that each attempt of a call is answered with the outcome of its own connection task, and
  -- the channel was given a server's TLS configuration. That can never work, and yet the call makes
  -- all its attempts, with all the sleeps between them, before it fails with that reason, as the
  -- text of an I/O error; no request is ever sent.
  pub wrong_role_is_retried :
      (c : ServerConfig X) (new_session : q.C → Result H3 CoreError) (k : ℕ)
      → ((n : ℕ)
          → w.pool n
            ≡ send_res
                (establish
                  (connect_fn
                    (Endpoint.client q)
                    (Endpoint.connect q)
                    (server c)
                    server_name
                    remote)
                  new_session).0)
      → retry.max_attempts ≡ suc k
      → let o = rpc_future m f w retry remote server_name deadline parts true in
        (o.1 ≡ err (stream_io (io_other "transport error: TLS error: expected client config")))
        × (gets o.0 ≡ suc k)
        × (sleeps o.0 ≡ from (backoff_for f retry) 0 k)
        × (sent o.0 ≡ [])
  unfolding rpc_future send_res client_config
  wrong_role_is_retried c new_session k h most =
      let (r, g, s) =
        never_called m f w retry remote server_name deadline parts
          (stream_io (io_other "transport error: TLS error: expected client config")) h k
          retry.max_attempts most in
      let slept = call_sleeps m f w retry remote server_name deadline parts in
      (
        r,
        g,
        slept
            ∙ ap (λ i. from (backoff_for f retry) 0 (i - 1)) g
            ∙ ap (from (backoff_for f retry) 0) (omega arith),
        s,
      )
