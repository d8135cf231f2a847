-- ===== src/Server/Serve/Shutdown.antt =====
-- The end of the server (crates/grpc-quic-server/src/server.rs).
use grpc_quic_rs.Common.{
  ℕ, zero, suc, ◌+◌, ◌≡◌, ◌≢◌, refl, List, [], ◌∷◌, map, some, none, Bool, true, false, ok, err,
  arith, All, All-append, ◌⊎◌, inl, inr, subst, ap, length,
}
use grpc_quic_rs.Server.Serve.{
  serving, draining, ended, Conn, closed, failed, unresolved, resolved, on_built, on_cancel,
  on_request, on_done, ConnStep, built, cancel, accept, done, drained, ConnsStep, here, there,
  listening, stopped, Server, on_signal, on_incoming, on_timeout, stream_limit, start, total, Step,
  signal, incoming, task, joined, timeout, Reach, begin, later, IsEnded, IsRunning,
}
use grpc_quic_rs.Server.Serve.Permits.{Reach-permits}

-- Outside the loop and the drain a connection has no requests.
abbrev pub IsQuiet : Conn → Type 0
IsQuiet c = (c.phase ≡ serving) ⊎ ((c.phase ≡ draining) ⊎ (c.in_flight ≡ 0))

ConnStep-IsQuiet : {x : Bool} {p q : ℕ} {c d : Conn} → ConnStep x p c q d → IsQuiet c → IsQuiet d
unfolding on_built on_cancel on_request on_done
ConnStep-IsQuiet (built true at) h = inl refl
ConnStep-IsQuiet (built false at) h = ground arith
ConnStep-IsQuiet (cancel sent at) h = inr (inl refl)
ConnStep-IsQuiet (accept closed at fits) h = inr (inl refl)
ConnStep-IsQuiet (accept failed at fits) h = inr (inl refl)
ConnStep-IsQuiet (accept unresolved at fits) h = h
ConnStep-IsQuiet {p = zero} (accept resolved at fits) h = inl at
ConnStep-IsQuiet {p = suc n} (accept resolved at fits) h = inl at
ConnStep-IsQuiet (done busy) h = ground arith
ConnStep-IsQuiet (drained at idle) h = inr (inr idle)

ConnsStep-IsQuiet :
    {x : Bool} {p q : ℕ} {cs ds : List Conn}
    → ConnsStep x p cs q ds
    → All IsQuiet cs
    → All IsQuiet ds
ConnsStep-IsQuiet (here cs st) h = (ConnStep-IsQuiet st h.0, h.1)
ConnsStep-IsQuiet (there c st) h = (h.0, ConnsStep-IsQuiet st h.1)

aborted-IsQuiet :
    (cs : List Conn) → All IsQuiet (map (λ c. record { phase = ended; in_flight = 0 }) cs)
aborted-IsQuiet [] = tt
aborted-IsQuiet (c ∷ cs) = (inr (inr refl), aborted-IsQuiet cs)

pub record Inv (s : Server) : Type 0 where
  pub quiet : All IsQuiet s.conns
  pub over : s.mode ≡ stopped → All IsEnded s.conns

Step-Inv : {s t : Server} → Step s t → Inv s → Inv t
unfolding on_signal on_incoming on_timeout
Step-Inv (signal at) v = record { quiet = v.quiet; over = λ e. cc }
Step-Inv (incoming none at) v = record { quiet = v.quiet; over = λ e. cc }
Step-Inv (incoming (some (err e)) at) v = v
Step-Inv {s} (incoming (some (ok c)) at) v = record {
  quiet = All-append IsQuiet s.conns _ v.quiet (inr (inr refl), tt);
  over = λ e. cc;
}
Step-Inv {s} (task running st) v = record {
  quiet = ConnsStep-IsQuiet st v.quiet;
  over = λ e. absurd (subst IsRunning e running);
}
Step-Inv (joined at all) v = record { quiet = v.quiet; over = λ e. all }
Step-Inv {s} (timeout at) v = record { quiet = aborted-IsQuiet s.conns; over = λ e. cc }

pub Reach-Inv : {n : ℕ} {s : Server} → Reach n s → Inv s
unfolding start
Reach-Inv begin = record { quiet = tt; over = λ e. tt }
Reach-Inv (later r st) = Step-Inv st (Reach-Inv r)

pub ended_total : (cs : List Conn) → All IsQuiet cs → All IsEnded cs → total cs ≡ 0
ended_total [] q h = refl
ended_total (c ∷ cs) q h = ground (arith, ended_total cs q.1 h.1)

-- When the server has returned without its timeout, every connection task has ended, no request is
-- in flight, and all permits are free again.
pub stopped_is_clean :
    {n : ℕ} {s : Server}
    → Reach n s
    → s.mode ≡ stopped
    → All IsEnded s.conns × (total s.conns ≡ 0) × (s.permits ≡ stream_limit n)
stopped_is_clean {s = s} r e =
    let v = Reach-Inv r in
    let none_left = ended_total s.conns v.quiet (v.over e) in
    (v.over e, none_left, omega (arith, none_left, Reach-permits r))

length-ConnsStep :
    {x : Bool} {p q : ℕ} {cs ds : List Conn} → ConnsStep x p cs q ds → length ds ≡ length cs
length-ConnsStep (here cs st) = refl
length-ConnsStep (there c st) = ap suc (length-ConnsStep st)

length-aborted :
    (cs : List Conn)
    → length {A = Conn} (map (λ c. record { phase = ended; in_flight = 0 }) cs) ≡ length cs
length-aborted [] = refl
length-aborted (c ∷ cs) = ap suc (length-aborted cs)

-- After the loop, by a signal or by the end of the endpoint, no step takes a new connection or goes
-- back to the loop.
pub no_new_connections :
    {s t : Server}
    → Step s t
    → s.mode ≢ listening
    → (length t.conns ≡ length s.conns) × (t.mode ≢ listening)
unfolding on_signal on_incoming on_timeout
no_new_connections (signal at) h = absurd (h at)
no_new_connections (incoming r at) h = absurd (h at)
no_new_connections (task running st) h = (length-ConnsStep st, h)
no_new_connections (joined at all) h = (refl, λ e. cc)
no_new_connections {s} (timeout at) h = (length-aborted s.conns, λ e. cc)

-- A connection that drains, because of the shutdown or because its peer is done, takes no new
-- request, keeps its requests until they end, and ends itself only without any.
pub draining_only_ends :
    {x : Bool} {p q : ℕ} {c d : Conn}
    → ConnStep x p c q d
    → c.phase ≡ draining
    → ((d.phase ≡ draining) × (d.in_flight + 1 ≡ c.in_flight) × (q ≡ p + 1))
      ⊎ ((d.phase ≡ ended) × (d.in_flight ≡ 0) × (c.in_flight ≡ 0) × (q ≡ p))
unfolding on_built on_cancel on_request on_done
draining_only_ends (built s at) e = absurd (ground arith)
draining_only_ends (cancel sent at) e = absurd (ground arith)
draining_only_ends (accept r at fits) e = absurd (ground arith)
draining_only_ends (done busy) e = inl (e, omega arith, omega arith)
draining_only_ends (drained at idle) e = inr (refl, idle, idle, refl)
