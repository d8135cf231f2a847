-- ===== src/Benches/Rounds.antt =====
-- The rounds of a benchmark (crates/grpc-quic-benches/benches/loss_sim.rs, quic_latency.rs and
-- tcp_latency.rs): the calls that criterion has a client make, and one report for each round.
-- criterion is a parameter: the calls of a round, in the order in which they end.
pub mod Tally
use grpc_quic_rs.Common.{ℕ, String, List, [], ◌∷◌, Result, ok, err, ◌>>=◌, Duration}
use grpc_quic_rs.Benches.{Panic, panicked}
use grpc_quic_rs.Benches.Latency.{Histograms, record_latency, take_histogram}
use grpc_quic_rs.Benches.Report.{BenchResult}

-- The times at which a call starts and returns, or its status.
abbrev pub Call : Type 0 → Type 0
Call S = Result (Duration × Duration) S

-- What criterion has made in a round, by the input of the round, and the time of its report.
pub record Rounds (S : Type 0) : Type 0 where
  pub calls : ℕ → List (Call S)
  pub timestamp : ℕ → String

module _ {S F : Type 0} (hs : Histograms F) where
  open hs use {Histogram}

  -- `c.unary(…).await.unwrap()` and `record_latency`, for each call.
  measure : List (Call S) → Histogram → Result Histogram Panic
  measure [] h = ok h
  measure (err e ∷ calls) h = err panicked
  measure (ok (start, now) ∷ calls) h = measure calls (record_latency hs start now h)

  -- The loop over the inputs, and what the thread's histogram is at its end. `report` is what the
  -- loop pushes for an input, at a time, from a histogram.
  unfoldable pub reports_of :
      Rounds S
      → (ℕ → String → Histogram → BenchResult F)
      → List ℕ
      → Histogram
      → Result (List (BenchResult F) × Histogram) Panic
  unfolding measure
  reports_of rounds report [] h = ok ([], h)
  reports_of rounds report (input ∷ inputs) h = do
    measured ← measure (rounds.calls input) h
    (hist, fresh) ← take_histogram hs measured
    (reports, last) ← reports_of rounds report inputs fresh
    ok (report input (rounds.timestamp input) hist ∷ reports, last)
