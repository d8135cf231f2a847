-- ===== src/Server/Serve/Permits.antt =====
-- The semaphore of the server (crates/grpc-quic-server/src/server.rs).
use grpc_quic_rs.Common.{
  ℕ, zero, suc, ◌+◌, ◌≤◌, ◌≡◌, refl, List, [], ◌∷◌, ◌++◌, map, none, some, Bool, true, false, ok,
  err, arith, ◌∙◌,
}
use grpc_quic_rs.Server.Serve.{
  ended, Conn, closed, failed, unresolved, resolved, on_built, on_cancel, on_request, on_done,
  ConnStep, built, cancel, accept, done, drained, ConnsStep, here, there, Server, on_signal,
  on_incoming, on_timeout, stream_limit, start, total, Step, signal, incoming, task, joined,
  timeout, Reach, begin, later,
}

ConnStep-permits :
    {x : Bool} {p q : ℕ} {c d : Conn} → ConnStep x p c q d → q + d.in_flight ≡ p + c.in_flight
unfolding on_built on_cancel on_request on_done
ConnStep-permits (built true at) = refl
ConnStep-permits (built false at) = refl
ConnStep-permits (cancel sent at) = refl
ConnStep-permits (accept closed at fits) = refl
ConnStep-permits (accept failed at fits) = refl
ConnStep-permits (accept unresolved at fits) = refl
ConnStep-permits {p = zero} (accept resolved at fits) = refl
ConnStep-permits {p = suc n} (accept resolved at fits) = omega arith
ConnStep-permits (done busy) = omega arith
ConnStep-permits (drained at idle) = refl

ConnsStep-permits :
    {x : Bool} {p q : ℕ} {cs ds : List Conn} → ConnsStep x p cs q ds → q + total ds ≡ p + total cs
ConnsStep-permits (here cs st) = omega (arith, ConnStep-permits st)
ConnsStep-permits (there c st) = omega (arith, ConnsStep-permits st)

pub total-append : (cs ds : List Conn) → total (cs ++ ds) ≡ total cs + total ds
total-append [] ds = omega arith
total-append (c ∷ cs) ds = omega (arith, total-append cs ds)

pub total-idle :
    (cs : List Conn) → total (map (λ c. record { phase = ended; in_flight = 0 }) cs) ≡ 0
total-idle [] = refl
total-idle (c ∷ cs) = omega (arith, total-idle cs)

Step-permits : {s t : Server} → Step s t → t.permits + total t.conns ≡ s.permits + total s.conns
unfolding on_signal on_incoming on_timeout
Step-permits (signal at) = refl
Step-permits (incoming none at) = refl
Step-permits (incoming (some (err e)) at) = refl
Step-permits {s} (incoming (some (ok c)) at) = omega (arith, total-append s.conns _)
Step-permits (task running st) = ConnsStep-permits st
Step-permits (joined at all) = refl
Step-permits {s} (timeout at) = omega (arith, total-idle s.conns)

-- In every reachable state the free permits and the requests in flight, over all connections, add
-- up to the limit: four times the configured number, or 256 if that is larger.
pub Reach-permits : {n : ℕ} {s : Server} → Reach n s → s.permits + total s.conns ≡ stream_limit n
unfolding start
Reach-permits begin = omega arith
Reach-permits (later r st) = Step-permits st ∙ Reach-permits r

-- So there are never more requests in flight than the limit.
total-le-stream_limit : {n : ℕ} {s : Server} → Reach n s → total s.conns ≤ stream_limit n
total-le-stream_limit r = omega (arith, Reach-permits r)
