-- ===== src/Server/Serve/Finish.antt =====
-- That a shutdown can always come to its regular end (crates/grpc-quic-server/src/server.rs).
use grpc_quic_rs.Common.{Bool, ℕ, ◌+◌, ◌≡◌, List, [], ◌∷◌}
use grpc_quic_rs.Server.Serve.{
  Conn, Phase, building, serving, draining, ended, ConnStep, accept, Step, ConnsStep, here, there,
  Server, task, joined,
}
use grpc_quic_rs.Server.Serve.Drain.{Steps, stay, then}

-- The steps that are left to a connection once the server is shutting down: the end of its
-- handshake, the news of the shutdown, the ends of its requests, and its own.
abbrev pub phase_steps : Phase → ℕ
phase_steps building = 3
phase_steps serving = 2
phase_steps draining = 1
phase_steps ended = 0

abbrev pub steps_left : List Conn → ℕ
steps_left [] = 0
steps_left (c ∷ cs) = c.in_flight + phase_steps c.phase + steps_left cs

-- The steps that need nothing from a peer: what the task of a connection does by itself, and the
-- end of the server's wait; not what arrives, a new connection, or the timeout.
abbrev pub IsOwnConn :
    {x : Bool} {p : ℕ} {c : Conn} {q : ℕ} {d : Conn} → ConnStep x p c q d → Type 0
IsOwnConn (accept r at fits) = ⊥
IsOwnConn _ = Unit

abbrev pub IsOwnConns :
    {x : Bool} {p : ℕ} {cs : List Conn} {q : ℕ} {ds : List Conn} → ConnsStep x p cs q ds → Type 0
IsOwnConns (here cs st) = IsOwnConn st
IsOwnConns (there c st) = IsOwnConns st

abbrev pub IsOwnStep : {s t : Server} → Step s t → Type 0
IsOwnStep (task running st) = IsOwnConns st
IsOwnStep (joined at all) = Unit
IsOwnStep _ = ⊥

abbrev pub IsOwn : {s : Server} {n : ℕ} {t : Server} → Steps s n t → Type 0
IsOwn stay = Unit
IsOwn (then path st) = IsOwn path × IsOwnStep st

abbrev Next : Bool → ℕ → Conn → Type 0
Next x p c =
    (q : ℕ) × (d : Conn) × (st : ConnStep x p c q d) × IsOwnConn st
    × (d.in_flight + phase_steps d.phase + 1 ≡ c.in_flight + phase_steps c.phase)
