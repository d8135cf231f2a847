-- ===== src/Server/Serve/Capacity.antt =====
-- How many requests one connection, and the server, may have in flight (crates/grpc-quic-server/src/server.rs).
use grpc_quic_rs.Common.{
  ℕ, zero, suc, ◌+◌, ◌*◌, ◌≤◌, ◌≡◌, refl, [], ◌∷◌, some, true, false, ok, arith, subst, ap, ◌∙◌,
  ◌-◌, max,
}
use grpc_quic_rs.Metrics.{connection}
use grpc_quic_rs.Server.Serve.Drain.{Steps, stay, then}
use grpc_quic_rs.Server.Serve.Permits.{Reach-permits}
use grpc_quic_rs.Server.Serve.Service.{up}
use grpc_quic_rs.Server.Serve.Service.Refinement.{status_of, admits_realised}
use grpc_quic_rs.Server.Serve.{
  Mode, waiting, stopped, forced, total, max_concurrent_bidi_streams, serving, resolved, on_built,
  on_request, built, accept, here, listening, Server, on_incoming, stream_limit, start, incoming,
  task, Reach, begin, later,
}

-- A server with `m` free permits and one connection with `k` requests.
abbrev one_connection : ℕ → ℕ → Server
one_connection m k = record {
  permits = m;
  conns = record { phase = serving; in_flight = k } ∷ [];
  mode = listening;
  cancelled = false;
  recorded = connection "server" ∷ [];
  rejecting = false;
  closed = false;
}

opened : (n : ℕ) → Reach n (one_connection (stream_limit n) 0)
unfolding start on_incoming on_built
opened n = later (later begin (incoming (some (ok tt)) refl)) (task tt (here [] (built true refl)))

filled :
    (n m k : ℕ)
    → k ≤ max_concurrent_bidi_streams
    → m + k ≡ stream_limit n
    → Reach n (one_connection m k)
unfolding on_request
filled n m zero few e =
    let full : stream_limit n ≡ m = omega (arith) in
    subst (λ x. Reach n (one_connection x 0)) full (opened n)
filled n m (suc k) few e =
    later (filled n (suc m) k (omega arith) (omega arith))
      (task tt (here [] (accept resolved refl (omega arith))))

-- `max_concurrent_streams` does not limit the streams of a connection: whatever is configured, one
-- connection alone can have any number of requests in flight that quinn lets through, which is up
-- to 100; each takes a permit of the server.
pub one_connection_fills :
    (n k : ℕ)
    → k ≤ max_concurrent_bidi_streams
    → (s : Server) × Reach n s
      × (s.conns ≡ record { phase = serving; in_flight = k } ∷ [])
      × (s.permits + k ≡ stream_limit n)
one_connection_fills n k few = (
  one_connection (stream_limit n - k) k,
  filled n (stream_limit n - k) k few (omega arith),
  refl,
  omega arith,
)

Steps-Reach : {n : ℕ} {s : Server} {k : ℕ} {t : Server} → Reach n s → Steps s k t → Reach n t
Steps-Reach r stay = r
Steps-Reach r (then path st) = later (Steps-Reach r path) st

up_listens : (m : Mode) → status_of m ≡ up → m ≡ listening
up_listens listening e = refl
up_listens waiting e = absurd (cc)
up_listens stopped e = absurd (cc)
up_listens forced e = absurd (cc)

loaded :
    (n k : ℕ)
    → k ≤ stream_limit n
    → (s : Server) × Reach n s × (s.mode ≡ listening) × (total s.conns ≡ k)
unfolding start
loaded n zero few = (start n, begin, refl, refl)
loaded n (suc k) few =
    let (s, r, at, load) = loaded n k (omega arith) in
    let (t, path, seen) = admits_realised s r at (omega (arith, load, few)) in
    (
      t,
      Steps-Reach r path,
      up_listens t.mode (ap (λ v. v.status) seen ∙ ap status_of at),
      ap (λ v. v.running) seen ∙ ap suc load,
    )

-- The server can come to have exactly four times the configured number of requests in flight, and
-- 256 if that is more, with no permit left.
pub limit_is_reached :
    (n : ℕ) → (s : Server) × Reach n s × (total s.conns ≡ max n 64 * 4) × (s.permits ≡ 0)
limit_is_reached n =
    let (s, r, at, load) = loaded n (stream_limit n) (omega arith) in
    (s, r, load, omega (arith, Reach-permits r, load))
