-- ===== src/Server/Serve/Service/Refinement.antt =====
-- The server of crates/grpc-quic-server/src/server.rs implements its specification.
use grpc_quic_rs.Common.{
  ℕ, zero, suc, ◌+◌, ◌-◌, ◌<◌, ◌≡◌, ◌⊎◌, inl, inr, refl, sym, ap, subst, List, [], ◌∷◌, ◌++◌, Bool,
  true, false, some, none, ok, err, arith,
}
use grpc_quic_rs.Server.Serve.{
  Conn, max_concurrent_bidi_streams, serving, closed, failed, unresolved, resolved, on_built,
  on_cancel, on_request, try_acquire, on_done, on_incoming, on_signal, on_timeout, ConnStep, built,
  cancel, accept, done, drained, ConnsStep, here, there, Server, Mode, listening, waiting, stopped,
  forced, stream_limit, total, Step, signal, incoming, task, joined, timeout, Reach, IsRunning,
}
use grpc_quic_rs.Server.Serve.Permits.{Reach-permits, total-append, total-idle}
use grpc_quic_rs.Server.Serve.Shutdown.{Reach-Inv, ended_total}
use grpc_quic_rs.Server.Serve.Drain.{Steps, stay, then}
use grpc_quic_rs.Server.Serve.Service.{
  Status, up, shutting, finished, aborted, Service, IsOpen, ServiceStep, stays, admits, completes,
  shuts, finishes, aborts,
}

abbrev pub status_of : Mode → Status
status_of listening = up
status_of waiting = shutting
status_of stopped = finished
status_of forced = aborted

-- How a server is seen: which connection has which request is forgotten.
abbrev pub view : Server → Service
view s = record { status = status_of s.mode; running = total s.conns }

running-IsOpen : (m : Mode) → IsRunning m → IsOpen (status_of m)
running-IsOpen listening h = inl refl
running-IsOpen waiting h = inr refl
running-IsOpen stopped h = absurd h
running-IsOpen forced h = absurd h

-- What a step of a connection does to the requests in flight and the free permits.
abbrev Moves : (p r q s : ℕ) → Type 0
Moves p r q s = (s ≡ r) ⊎ (((s ≡ suc r) × (0 < p)) ⊎ ((s ≡ r - 1) × (0 < r)))

ConnStep-Moves :
    {x : Bool} {p q : ℕ} {c d : Conn} → ConnStep x p c q d → Moves p c.in_flight q d.in_flight
unfolding on_built on_cancel on_request on_done
ConnStep-Moves (built true at) = inl refl
ConnStep-Moves (built false at) = inl refl
ConnStep-Moves (cancel sent at) = inl refl
ConnStep-Moves (accept closed at fits) = inl refl
ConnStep-Moves (accept failed at fits) = inl refl
ConnStep-Moves (accept unresolved at fits) = inl refl
ConnStep-Moves {p = zero} (accept resolved at fits) = inl refl
ConnStep-Moves {p = suc n} (accept resolved at fits) = inr (inl (refl, omega arith))
ConnStep-Moves (done busy) = inr (inr (refl, busy))
ConnStep-Moves (drained at idle) = inl refl

ConnsStep-Moves :
    {x : Bool} {p q : ℕ} {cs ds : List Conn}
    → ConnsStep x p cs q ds
    → Moves p (total cs) q (total ds)
ConnsStep-Moves (here cs st) = ground (arith, ConnStep-Moves st)
ConnsStep-Moves (there c st) = ground (arith, ConnsStep-Moves st)

module _ (limit : ℕ) (s : Server) where
  -- A step that changes nothing but the requests in flight.
  runs :
      (k k' : ℕ)
      → k ≡ k'
      → ServiceStep limit (view s) (record (view s) { running = k' })
      → ServiceStep limit (view s) (record (view s) { running = k })
  runs k k' e = subst (λ x. ServiceStep limit (view s) (record (view s) { running = x })) (sym e)

  task-refines :
      (q : ℕ) (ds : List Conn)
      → s.permits + total s.conns ≡ limit
      → IsRunning s.mode
      → Moves s.permits (total s.conns) q (total ds)
      → ServiceStep limit (view s) (view (record s { permits = q; conns = ds }))
  task-refines q ds full running (inl same) = runs (total ds) _ same stays
  task-refines q ds full running (inr (inl (more, free))) =
      runs (total ds) _ more (admits (running-IsOpen s.mode running) (omega (arith, full, free)))
  task-refines q ds full running (inr (inr (less, busy))) =
      runs (total ds) _ less (completes (running-IsOpen s.mode running) busy)

-- Each step of the server, in every reachable state, is a step of its specification, or leaves what
-- that sees as it is: requests are admitted only below the limit and before the end, they end one by
-- one, the server shuts down once, and it finishes only when none is in flight, or aborts them all.
pub server_refines :
    {n : ℕ} {s t : Server} → Reach n s → Step s t → ServiceStep (stream_limit n) (view s) (view t)
unfolding on_signal on_incoming on_timeout
server_refines r (signal at) = shuts (ap status_of at)
server_refines r (incoming none at) = shuts (ap status_of at)
server_refines r (incoming (some (err e)) at) = stays
server_refines {n} {s} r (incoming (some (ok conn)) at) =
    runs (stream_limit n) s _ (total s.conns) (omega (arith, total-append s.conns _)) stays
server_refines {n} {s} r (task {permits} {conns} running st) =
    task-refines (stream_limit n) s permits conns (Reach-permits r) running (ConnsStep-Moves st)
server_refines {n} {s} r (joined at all) =
    finishes (ap status_of at) (ended_total s.conns (Reach-Inv r).quiet all)
server_refines {n} {s} r (timeout at) =
    subst (λ k. ServiceStep (stream_limit n) (view s) (record { status = aborted; running = k }))
      (sym (total-idle s.conns)) (aborts (ap status_of at))

-- A step of the last connection.
ConnsStep-last :
    {x : Bool} {p q : ℕ} {c d : Conn} (cs : List Conn)
    → ConnStep x p c q d
    → ConnsStep x p (cs ++ c ∷ []) q (cs ++ d ∷ [])
ConnsStep-last [] st = here [] st
ConnsStep-last (c ∷ cs) st = there c (ConnsStep-last cs st)

accepts :
    (x : Bool) (m : ℕ) (c : Conn)
    → c.phase ≡ serving
    → c.in_flight < max_concurrent_bidi_streams
    → ConnStep x (suc m) c m (record c { in_flight = suc c.in_flight })
unfolding on_request try_acquire
accepts x m c at fits = accept resolved at fits

-- The requests of a server whose new connection has one.
total-last : (cs : List Conn) (c : Conn) → c.in_flight ≡ 1 → total (cs ++ c ∷ []) ≡ suc (total cs)
total-last cs c one = omega (arith, total-append cs (c ∷ []), one)

admits_one :
    (s : Server) (m : ℕ)
    → s.mode ≡ listening
    → s.permits ≡ suc m
    → (t : Server) × Steps s 3 t × (view t ≡ record (view s) { running = suc (total s.conns) })
unfolding on_incoming on_built
admits_one s m at free =
    let running = subst IsRunning (sym at) tt in
    let taken =
      subst
        (λ p.
          ConnStep s.cancelled p (record { phase = serving; in_flight = 0 }) m
            (record { phase = serving; in_flight = 1 }))
        (sym free)
        (accepts s.cancelled m (record { phase = serving; in_flight = 0 }) refl (omega arith)) in
    (
      _,
      then
          (then (then stay (incoming (some (ok tt)) at))
            (task running (ConnsStep-last s.conns (built true refl))))
          (task running (ConnsStep-last s.conns taken)),
      ap (λ k. record (view s) { running = k }) (total-last s.conns _ refl),
    )

-- A server that listens and is below its limit can, whatever its connections are doing, take one
-- more request in three steps, over a new connection; nothing else that the specification sees
-- changes.
pub admits_realised :
    {n : ℕ} (s : Server)
    → Reach n s
    → s.mode ≡ listening
    → total s.conns < stream_limit n
    → (t : Server) × Steps s 3 t × (view t ≡ record (view s) { running = suc (total s.conns) })
admits_realised s r at small =
    admits_one s (s.permits - 1) at (omega (arith, Reach-permits r, small))
