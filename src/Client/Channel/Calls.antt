-- ===== src/Client/Channel/Calls.antt =====
-- The calls that share one channel and its semaphore (`QuicChannel::call` of
-- crates/grpc-quic-client/src/channel.rs): a step is a poll of the semaphore, the end of an
-- `rpc_future`, or the drop of what a caller holds.
pub mod Permits
pub mod Progress
mod Tests
use grpc_quic_rs.Common.{
  ℕ, zero, suc, ◌≡◌, List, [], ◌∷◌, ◌++◌, Option, none, some, Bool, true, false, ◌+◌, ◌-◌, ltb,
  if◌then◌else◌,
}

-- A call waits for its permit, has it, has given its response with a body that is read on, or is
-- over.
pub data Phase : Type 0 where
  queued running responding over : Phase

pub record Calls : Type 0 where
  pub permits : ℕ
  pub calls : List Phase

-- A channel with a limit. The calls stand in the order in which they first poll the semaphore.
abbrev pub start : ℕ → Calls
start limit = record { permits = limit; calls = [] }

-- `call`, which `poll_ready` lets through at any time, up to its place in the semaphore's queue.
abbrev pub dispatch : Calls → Calls
dispatch s = record s { calls = s.calls ++ queued ∷ [] }

-- A poll of `acquire_owned` with `ahead` calls waiting in front of this one. tokio's semaphore is
-- fair: the free permits belong to the calls that have waited longest. Nothing closes it.
pub acquire : ℕ → ℕ → ℕ × Phase
acquire ahead permits = if ltb ahead permits then (permits - 1, running) else (permits, queued)

-- `rpc_future` returns, with a response or not, and drops its permit.
pub finish : ℕ → Bool → ℕ × Phase
finish permits true = (suc permits, responding)
finish permits false = (suc permits, over)

-- The deadline of `timeout_at` or the caller drops the future, with the permit if it has one; or
-- the caller drops the response's body.
pub dropped : ℕ → Phase → ℕ × Phase
dropped permits running = (suc permits, over)
dropped permits _ = (permits, over)

abbrev pub phase_at : ℕ → List Phase → Option Phase
phase_at i [] = none
phase_at zero (c ∷ cs) = some c
phase_at (suc i) (c ∷ cs) = phase_at i cs

abbrev pub set_phase : ℕ → Phase → List Phase → List Phase
set_phase i d [] = []
set_phase zero d (c ∷ cs) = d ∷ cs
set_phase (suc i) d (c ∷ cs) = c ∷ set_phase i d cs

abbrev pub waits : Phase → ℕ
waits queued = 1
waits _ = 0

-- The calls that wait in front of the i-th.
abbrev pub waiting_ahead : ℕ → List Phase → ℕ
waiting_ahead i [] = 0
waiting_ahead zero (c ∷ cs) = 0
waiting_ahead (suc i) (c ∷ cs) = waits c + waiting_ahead i cs

-- One call's step, with the calls that wait in front of it, and the permits.
pub data CallStep (ahead permits : ℕ) : Phase → ℕ × Phase → Type 0 where
  polls : CallStep ahead permits queued (acquire ahead permits)
  returns : (answered : Bool) → CallStep ahead permits running (finish permits answered)
  drops : (c : Phase) → CallStep ahead permits c (dropped permits c)

pub data Step (s : Calls) : Calls → Type 0 where
  dispatches : Step s (dispatch s)
  steps :
      (i : ℕ) {c : Phase} {r : ℕ × Phase}
      → phase_at i s.calls ≡ some c
      → CallStep (waiting_ahead i s.calls) s.permits c r
      → Step s (record { permits = r.0; calls = set_phase i r.1 s.calls })

pub data Reach (limit : ℕ) : Calls → Type 0 where
  begin : Reach limit (start limit)
  later : {s t : Calls} → Reach limit s → Step s t → Reach limit t
