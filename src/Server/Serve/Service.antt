-- ===== src/Server/Serve/Service.antt =====
-- What the server promises (crates/grpc-quic-server/src/server.rs), without its connections and its
-- semaphore: it is up, shutting down or over, and it has a number of requests in flight.
pub mod Refinement
use grpc_quic_rs.Common.{ℕ, suc, ◌-◌, ◌<◌, ◌≡◌, ◌⊎◌}

pub data Status : Type 0 where
  up shutting finished aborted : Status

pub record Service : Type 0 where
  pub status : Status
  pub running : ℕ

-- Requests are admitted and end.
abbrev pub IsOpen : Status → Type 0
IsOpen s = (s ≡ up) ⊎ (s ≡ shutting)

pub data ServiceStep (limit : ℕ) (s : Service) : Service → Type 0 where
  stays : ServiceStep limit s s
  admits :
      IsOpen s.status
      → s.running < limit
      → ServiceStep limit s (record s { running = suc s.running })
  completes :
      IsOpen s.status → 0 < s.running → ServiceStep limit s (record s { running = s.running - 1 })
  shuts : s.status ≡ up → ServiceStep limit s (record s { status = shutting })
  finishes :
      s.status ≡ shutting → s.running ≡ 0 → ServiceStep limit s (record s { status = finished })
  aborts : s.status ≡ shutting → ServiceStep limit s (record { status = aborted; running = 0 })
