-- ===== src/Server/Serve.antt =====
-- The serve loop and the connection handler of crates/grpc-quic-server/src/server.rs: the tasks of
-- `serve_with_incoming_shutdown` and of each `handle_connection`, which share a semaphore and a
-- broadcast channel. A step is one turn of a `select!`, or the end of a task.
pub mod Permits
pub mod Shutdown
pub mod Capacity
pub mod Drain
pub mod Finish
pub mod Service
mod Tests
use grpc_quic_rs.Common.{
  ℕ, zero, suc, ◌+◌, ◌-◌, ◌*◌, ◌<◌, ◌≡◌, max, List, [], ◌∷◌, ◌++◌, map, Option, none, some, Bool,
  true, false, Result, ok, err, All, String,
}
use grpc_quic_rs.Metrics.{Record, connection}

-- `build_server_conn`, the loop, the wait for the requests, and the end of the task.
pub data Phase : Type 0 where
  building serving draining ended : Phase

-- One `handle_connection` task; `in_flight` is the size of its `request_join_set`.
pub record Conn : Type 0 where
  pub phase : Phase
  pub in_flight : ℕ

-- What `h3_conn.accept()`, and then `resolve_request`, gave.
pub data Accepted : Type 0 where
  closed : Accepted  -- `Ok(None)`
  failed : Accepted  -- `Err(e)`
  unresolved : Accepted
  resolved : Accepted

-- `handle_connection` after `build_server_conn`.
pub on_built : Bool → Conn → Conn
on_built true c = record c { phase = serving }
on_built false c = record c { phase = ended }

-- The `cancel_rx` branch: GOAWAY, then `break`.
pub on_cancel : Conn → Conn
on_cancel c = record c { phase = draining }

-- `try_acquire_owned`, and the task that handles the request and holds the permit.
try_acquire : ℕ → Conn → ℕ × Conn
try_acquire zero c = (zero, c)
try_acquire (suc permits) c = (permits, record c { in_flight = suc c.in_flight })

-- The `accept` branch, over the permits of the semaphore.
pub on_request : ℕ → Conn → Accepted → ℕ × Conn
unfolding try_acquire
on_request permits c closed = (permits, record c { phase = draining })
on_request permits c failed = (permits, record c { phase = draining })
on_request permits c unresolved = (permits, c)
on_request permits c resolved = try_acquire permits c

-- A request's task ends, and drops its permit.
pub on_done : ℕ → Conn → ℕ × Conn
on_done permits c = (suc permits, record c { in_flight = c.in_flight - 1 })

-- The loop of `serve_with_incoming_shutdown`, the wait for the connections, and its return: with
-- all connections ended, or after the timeout.
pub data Mode : Type 0 where
  listening waiting stopped forced : Mode

pub record Server : Type 0 where
  pub permits : ℕ
  pub conns : List Conn
  pub mode : Mode
  pub cancelled : Bool  -- whether `cancel_tx` has sent
  pub recorded : List Record  -- the calls of the recorders by the loop
  pub rejecting : Bool  -- whether the endpoint rejects new connections
  pub closed : Bool  -- whether the endpoint was closed

-- `(max_concurrent_streams as usize).max(64) * 4`
abbrev pub stream_limit : ℕ → ℕ
stream_limit max_concurrent_streams = max max_concurrent_streams 64 * 4

unfoldable pub start : ℕ → Server
start max_concurrent_streams = record {
  permits = stream_limit max_concurrent_streams;
  conns = [];
  mode = listening;
  cancelled = false;
  recorded = [];
  rejecting = false;
  closed = false;
}

-- The `signal` branch.
pub on_signal : Server → Server
on_signal s = record s { rejecting = true; cancelled = true; mode = waiting }

-- The `accept` branch, for what `endpoint.accept()` gave: the end, a failed handshake, or a
-- connection, of which only its task matters here.
unfoldable pub on_incoming : Server → Option (Result (Unit {0}) String) → Server
on_incoming s none = record s { mode = waiting }
on_incoming s (some (err e)) = s
on_incoming s (some (ok conn)) = record s {
  conns = s.conns ++ record { phase = building; in_flight = 0 } ∷ [];
  recorded = s.recorded ++ connection "server" ∷ [];
}

-- The requests in flight on all connections.
abbrev pub total : List Conn → ℕ
total [] = 0
total (c ∷ cs) = c.in_flight + total cs

-- The timeout: the endpoint is closed, and the return drops the tasks, which hold the permits.
unfoldable pub on_timeout : Server → Server
on_timeout s = record s {
  permits = s.permits + total s.conns;
  conns = map (λ c. record { phase = ended; in_flight = 0 }) s.conns;
  mode = forced;
  closed = true;
}

abbrev pub IsEnded : Conn → Type 0
IsEnded c = c.phase ≡ ended

-- The streams that a client may have open at once on a connection, by the default of quinn's
-- `TransportConfig`, which `Endpoint::server` keeps; those of the requests in flight are open.
abbrev pub max_concurrent_bidi_streams : ℕ
max_concurrent_bidi_streams = 100

-- What can arrive while `in_flight` requests are.
abbrev pub CanArrive : ℕ → Accepted → Type 0
CanArrive in_flight closed = Unit
CanArrive in_flight failed = Unit
CanArrive in_flight unresolved = in_flight < max_concurrent_bidi_streams
CanArrive in_flight resolved = in_flight < max_concurrent_bidi_streams

-- One step of a connection task: from the permits and the connection to those after.
pub data ConnStep (cancelled : Bool) (permits : ℕ) (c : Conn) : ℕ → Conn → Type 0 where
  built :
      (success : Bool)
      → c.phase ≡ building
      → ConnStep cancelled permits c permits (on_built success c)
  cancel : cancelled ≡ true → c.phase ≡ serving → ConnStep cancelled permits c permits (on_cancel c)
  accept :
      (r : Accepted)
      → c.phase ≡ serving
      → CanArrive c.in_flight r
      → ConnStep cancelled permits c (on_request permits c r).0 (on_request permits c r).1
  done : 0 < c.in_flight → ConnStep cancelled permits c (on_done permits c).0 (on_done permits c).1
  drained :
      c.phase ≡ draining
      → c.in_flight ≡ 0
      → ConnStep cancelled permits c permits (record c { phase = ended })

-- A step of one of the connections of a list.
pub data ConnsStep (cancelled : Bool) (permits : ℕ) : List Conn → ℕ → List Conn → Type 0 where
  here :
      {c c' : Conn} {permits' : ℕ} (cs : List Conn)
      → ConnStep cancelled permits c permits' c'
      → ConnsStep cancelled permits (c ∷ cs) permits' (c' ∷ cs)
  there :
      (c : Conn) {cs cs' : List Conn} {permits' : ℕ}
      → ConnsStep cancelled permits cs permits' cs'
      → ConnsStep cancelled permits (c ∷ cs) permits' (c ∷ cs')

abbrev pub IsRunning : Mode → Type 0
IsRunning listening = Unit
IsRunning waiting = Unit
IsRunning stopped = ⊥
IsRunning forced = ⊥

pub data Step (s : Server) : Server → Type 0 where
  signal : s.mode ≡ listening → Step s (on_signal s)
  incoming : (r : Option (Result (Unit {0}) String)) → s.mode ≡ listening → Step s (on_incoming s r)
  task :
      {permits : ℕ} {conns : List Conn}
      → IsRunning s.mode
      → ConnsStep s.cancelled s.permits s.conns permits conns
      → Step s (record s { permits = permits; conns = conns })
  joined : s.mode ≡ waiting → All IsEnded s.conns → Step s (record s { mode = stopped })
  timeout : s.mode ≡ waiting → Step s (on_timeout s)

pub data Reach (max_concurrent_streams : ℕ) : Server → Type 0 where
  begin : Reach max_concurrent_streams (start max_concurrent_streams)
  later :
      {s t : Server} → Reach max_concurrent_streams s → Step s t → Reach max_concurrent_streams t
