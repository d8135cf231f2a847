-- ===== src/Server/Serve/Drain.antt =====
-- How long the server's shutdown takes (crates/grpc-quic-server/src/server.rs), in steps.
use grpc_quic_rs.Common.{
  ℕ, zero, suc, ◌+◌, ◌≤◌, ◌<◌, ◌≡◌, ◌≢◌, ◌⊎◌, refl, inl, inr, List, [], ◌∷◌, map, Bool, All, arith,
  sym, subst,
}
use grpc_quic_rs.Server.Serve.{
  Conn, Phase, draining, ended, ConnStep, built, cancel, accept, done, drained, ConnsStep, here,
  there, Server, listening, waiting, stopped, forced, Mode, IsEnded, IsRunning, on_timeout, Step,
  signal, incoming, task, joined, timeout, on_done,
}

-- A connection that takes no request any more.
abbrev pub IsDraining : Conn → Type 0
IsDraining c = (c.phase ≡ draining) ⊎ (c.phase ≡ ended)

-- The requests in flight, and one for each connection that has not ended and for the server.
abbrev pub open_tasks : Phase → ℕ
open_tasks ended = 0
open_tasks _ = 1

abbrev pub work : List Conn → ℕ
work [] = 0
work (c ∷ cs) = c.in_flight + open_tasks c.phase + work cs

abbrev pub mode_work : Mode → ℕ
mode_work stopped = 0
mode_work forced = 0
mode_work _ = 1

-- `n` steps of the server.
pub data Steps (s : Server) : ℕ → Server → Type 0 where
  stay : Steps s 0 s
  then : {n : ℕ} {t u : Server} → Steps s n t → Step t u → Steps s (suc n) u

ConnStep-work :
    {x : Bool} {p : ℕ} {c : Conn} {q : ℕ} {d : Conn}
    → ConnStep x p c q d
    → IsDraining c
    → IsDraining d × (d.in_flight + open_tasks d.phase + 1 ≡ c.in_flight + open_tasks c.phase)
unfolding on_done
ConnStep-work (built b at) h = absurd (ground arith)
ConnStep-work (cancel x at) h = absurd (ground arith)
ConnStep-work (accept r at fits) h = absurd (ground arith)
ConnStep-work (done busy) h = (h, omega arith)
ConnStep-work (drained at idle) h = (inr refl, ground arith)

ConnsStep-work :
    {x : Bool} {p q : ℕ} {cs ds : List Conn}
    → ConnsStep x p cs q ds
    → All IsDraining cs
    → All IsDraining ds × (work ds + 1 ≡ work cs)
ConnsStep-work (here cs st) (h, hs) = let (k, e) = ConnStep-work st h in ((k, hs), omega (arith, e))
ConnsStep-work (there c st) (h, hs) =
    let (ks, e) = ConnsStep-work st hs in ((h, ks), omega (arith, e))

abbrev Settling : Server → Type 0
Settling s = (s.mode ≢ listening) × All IsDraining s.conns

abbrev pub server_work : Server → ℕ
server_work s = work s.conns + mode_work s.mode

aborted-IsDraining :
    (cs : List Conn) → All IsDraining (map (λ c. record { phase = ended; in_flight = 0 }) cs)
aborted-IsDraining [] = tt
aborted-IsDraining (c ∷ cs) = (inr refl, aborted-IsDraining cs)

aborted-work : (cs : List Conn) → work (map (λ c. record { phase = ended; in_flight = 0 }) cs) ≡ 0
aborted-work [] = refl
aborted-work (c ∷ cs) = omega (arith, aborted-work cs)

-- Each step of a server that drains does a part of what is left.
Step-work :
    {s t : Server} → Step s t → Settling s → Settling t × (server_work t + 1 ≤ server_work s)
unfolding on_timeout
Step-work (signal at) (h, hs) = absurd (h at)
Step-work (incoming r at) (h, hs) = absurd (h at)
Step-work {s} (task running st) (h, hs) =
    let (ks, e) = ConnsStep-work st hs in ((h, ks), omega (arith, e))
Step-work {s} (joined at all) (h, hs) = ((λ e. cc, hs), ground arith)
Step-work {s} (timeout at) (h, hs) =
    ((λ e. cc, aborted-IsDraining s.conns), ground (arith, aborted-work s.conns))

Steps-work :
    {s : Server} {n : ℕ} {t : Server}
    → Steps s n t
    → Settling s
    → Settling t × (server_work t + n ≤ server_work s)
Steps-work stay h = (h, omega arith)
Steps-work (then path st) h =
    let (k, e) = Steps-work path h in let (k', e') = Step-work st k in (k', omega (arith, e, e'))

-- Once the server waits for its connections and every one of them drains or has ended, no run has
-- more steps than there are requests in flight and connections that have not ended, and one more.
pub drain_ends :
    {n : ℕ} {s t : Server}
    → Steps s n t
    → s.mode ≡ waiting
    → All IsDraining s.conns
    → n ≤ work s.conns + 1
drain_ends {s} path at hs =
    let (k, e) = Steps-work path (λ p. absurd (ground arith), hs) in ground (arith, e)

-- A connection that drains can end its requests and then itself.
ConnStep-next :
    (x : Bool) (p : ℕ) (c : Conn) (k : ℕ)
    → c.in_flight ≡ k
    → IsDraining c
    → (c.phase ≡ ended) ⊎ ((q : ℕ) × (d : Conn) × ConnStep x p c q d)
ConnStep-next x p c k e (inr over) = inl over
ConnStep-next x p c zero e (inl at) = inr (p, _, drained at e)
ConnStep-next x p c (suc k) e (inl at) = inr (_, _, done (omega (arith, e)))

ConnsStep-next :
    (x : Bool) (p : ℕ) (cs : List Conn)
    → All IsDraining cs
    → All IsEnded cs ⊎ ((q : ℕ) × (ds : List Conn) × ConnsStep x p cs q ds)
ConnsStep-next x p [] hs = inl tt
ConnsStep-next x p (c ∷ cs) (h, hs) = elim (ConnStep-next x p c c.in_flight refl h) [
  | inr (q, d, st) ↦ inr (q, _, here cs st)
  | inl over ↦ elim (ConnsStep-next x p cs hs) [
    | inl all ↦ inl (over, all)
    | inr (q, ds, st) ↦ inr (q, _, there c st)
  ]
]

-- The steps in front of a run.
unfoldable pub Steps-cons : {s t u : Server} (n : ℕ) → Step s t → Steps t n u → Steps s (suc n) u
Steps-cons n st stay = then stay st
Steps-cons n st (then path last) = then (Steps-cons _ st path) last

drain_run :
    (fuel : ℕ) (s : Server)
    → s.mode ≡ waiting
    → All IsDraining s.conns
    → work s.conns < fuel
    → (n : ℕ) × (t : Server) × Steps s n t × (t.mode ≡ stopped) × (t.closed ≡ s.closed)
drain_run zero s at hs small = elim small [ ]
drain_run (suc fuel) s at hs small = elim (ConnsStep-next s.cancelled s.permits s.conns hs) [
  | inl all ↦ (1, _, then stay (joined at all), refl, refl)
  | inr (q, ds, st) ↦
      let (ks, e) = ConnsStep-work st hs in
      let next = record s { permits = q; conns = ds } in
      let (n, t, path, over, same) = drain_run fuel next at ks (omega (arith, e)) in
      (suc n, t, Steps-cons n (task (subst IsRunning (sym at) tt) st) path, over, same)
]

-- A server that waits for its connections, every one of which drains or has ended, can always go on
-- to its regular return, without the timeout and with its endpoint not closed by force, in at most
-- as many steps as there are requests in flight and connections that have not ended, and one more.
pub drain_reaches_stop :
    (s : Server)
    → s.mode ≡ waiting
    → All IsDraining s.conns
    → (n : ℕ) × (t : Server) × Steps s n t
      × (t.mode ≡ stopped)
      × (t.closed ≡ s.closed)
      × (n ≤ work s.conns + 1)
drain_reaches_stop s at hs =
    let (n, t, path, over, same) = drain_run (work s.conns + 1) s at hs (omega arith) in
    (n, t, path, over, same, drain_ends path at hs)
