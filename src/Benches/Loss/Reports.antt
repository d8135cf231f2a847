-- ===== src/Benches/Loss/Reports.antt =====
-- What the reports of a section measure (crates/grpc-quic-benches/benches/loss_sim.rs).
use grpc_quic_rs.Common.{ℕ, ◌<◌, String, List, All, map, length, ok, ◌≡◌, u64_mod}
use grpc_quic_rs.Benches.{concurrency}
use grpc_quic_rs.Benches.Latency.{Histograms}
use grpc_quic_rs.Benches.Report.{Doubles, BenchResult, Host}
use grpc_quic_rs.Benches.Rounds.{Rounds}
use grpc_quic_rs.Benches.Rounds.Tally
use grpc_quic_rs.Benches.Rounds.Tally.{Takes, reports_of_lem}
use grpc_quic_rs.Benches.Loss.{section, loss_report}

module _ {S : Type 0} (d : Doubles) (hs : Histograms d.F) (host : Host) (protocol : String)
    (loss : ℕ) (rounds : Rounds S) where
  open hs use {Histogram}

  -- The report of a number of concurrent calls, from the calls of its own round.
  abbrev pub own : Histogram → ℕ → BenchResult d.F
  own = Tally.own hs rounds (loss_report d hs host protocol loss)

  -- The reports of a section, if no call fails, are one for each number of concurrent calls, in
  -- order, each of a histogram of the calls of its own round alone, which counts all of them if
  -- there are fewer than 2^64 and the histogram takes every value; and the next section starts
  -- with an empty histogram again.
  pub section_reports :
      (fresh : Histogram)
      → hs.new ≡ ok fresh
      → Takes hs
      → All (λ conc. length (rounds.calls conc) < u64_mod) concurrency
      → (reports : List (BenchResult d.F)) (last : Histogram)
      → section d hs host protocol loss rounds fresh ≡ ok (reports, last)
      → (reports ≡ map (own fresh) concurrency)
        × (last ≡ fresh)
        × All (λ conc. (own fresh conc).latency.samples ≡ length (rounds.calls conc)) concurrency
  unfolding section
  section_reports fresh new takes small reports last h =
      reports_of_lem hs rounds (loss_report d hs host protocol loss) fresh new takes concurrency
        small reports last h
