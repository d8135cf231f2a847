-- ===== src/Benches/Rounds/Tally.antt =====
-- What the reports of rounds measure (crates/grpc-quic-benches/benches/loss_sim.rs and the other
-- benchmarks beside it).
use grpc_quic_rs.Common.{
  ℕ, ◌+◌, ◌<◌, ◌-◌, ◌∙◌, min, String, List, [], ◌∷◌, All, map, length, ok, err, >>=-eq-ok, ◌≡◌, ap,
  sym, u64_mod, arith,
}
use grpc_quic_rs.Benches.Latency.{Histograms, record_latency, take_histogram, elapsed_micros}
use grpc_quic_rs.Benches.Report.{BenchResult}
use grpc_quic_rs.Benches.Rounds.{Call, Rounds, measure, reports_of}

module _ {F : Type 0} (hs : Histograms F) where
  open hs use {Histogram}

  -- A histogram that has room for every value.
  abbrev pub Takes : Type 0
  Takes = (h : Histogram) (v : ℕ) → (k : Histogram) × (hs.record_value h v ≡ ok k)

  len-record_latency :
      Takes
      → (start now : ℕ) (h : Histogram) → hs.len h < u64_mod - 1
      → hs.len (record_latency hs start now h) ≡ hs.len h + 1
  len-record_latency takes start now h small =
      let (k, e) = takes h (elapsed_micros start now) in
      let l : hs.len k ≡ min (hs.len h + 1) (u64_mod - 1) =
        hs.len-record_value h k (elapsed_micros start now) e in
      rw e (omega (arith, l, small))

module _ {S F : Type 0} (hs : Histograms F) where
  open hs use {Histogram}

  -- The latencies of the calls alone, in a histogram.
  abbrev pub tally : List (Call S) → Histogram → Histogram
  tally [] h = h
  tally (err e ∷ calls) h = tally calls h
  tally (ok (start, now) ∷ calls) h = tally calls (record_latency hs start now h)

  measure-tally :
      (calls : List (Call S)) (h k : Histogram) → measure hs calls h ≡ ok k → k ≡ tally calls h
  unfolding measure
  measure-tally [] h k e = cc
  measure-tally (err x ∷ calls) h k e = absurd (cc)
  measure-tally (ok (start, now) ∷ calls) h k e =
      measure-tally calls (record_latency hs start now h) k e

  measure-len :
      Takes hs
      → (calls : List (Call S)) (h k : Histogram) → measure hs calls h ≡ ok k
      → hs.len h + length calls < u64_mod
      → hs.len k ≡ hs.len h + length calls
  unfolding measure
  measure-len takes [] h k e small = let same : k ≡ h = cc in rw same (omega arith)
  measure-len takes (err x ∷ calls) h k e small = absurd (cc)
  measure-len takes (ok (start, now) ∷ calls) h k e small =
      let step = len-record_latency hs takes start now h (omega (arith, small)) in
      let rest =
        measure-len takes calls (record_latency hs start now h) k e (omega (arith, small, step)) in
      omega (arith, rest, step)

  module _ (rounds : Rounds S) (report : ℕ → String → Histogram → BenchResult F) where
    -- The report of an input, from the calls of its own round.
    abbrev pub own : Histogram → ℕ → BenchResult F
    own fresh input = report input (rounds.timestamp input) (tally (rounds.calls input) fresh)

    abbrev own_of : Histogram → ℕ → BenchResult F
    own_of hist input = report input (rounds.timestamp input) hist

    -- If no call fails, there is one report for each input, in order, each of a histogram of the calls
    -- of its own round alone, which counts all of them if there are fewer than 2^64 and the histogram
    -- takes every value; and the loop leaves an empty histogram behind.
    pub reports_of_lem :
        (fresh : Histogram)
        → hs.new ≡ ok fresh
        → Takes hs
        → (inputs : List ℕ) → All (λ input. length (rounds.calls input) < u64_mod) inputs
        → (reports : List (BenchResult F)) (last : Histogram)
        → reports_of hs rounds report inputs fresh ≡ ok (reports, last)
        → (reports ≡ map (own fresh) inputs)
          × (last ≡ fresh)
          × All
              (λ input. hs.len (tally (rounds.calls input) fresh) ≡ length (rounds.calls input))
              inputs
    unfolding reports_of
    reports_of_lem fresh new takes [] small reports last h = (cc, cc, tt)
    reports_of_lem fresh new takes (input ∷ inputs) (small, smalls) reports last h =
        let (measured, e1, h1) = >>=-eq-ok _ _ (reports, last) h in
        let empty : hs.len fresh ≡ 0 = hs.len-new fresh new in
        let own_h : measured ≡ tally (rounds.calls input) fresh =
          measure-tally (rounds.calls input) fresh measured e1 in
        let taken : take_histogram hs measured ≡ ok (measured, fresh) = cc in
        let counted =
          measure-len takes (rounds.calls input) fresh measured e1 (omega (arith, small, empty)) in
        let (pair, e2, h2) = >>=-eq-ok (take_histogram hs measured) _ (reports, last) h1 in
        let same : pair ≡ (measured, fresh) = cc in
        let (more, e3, h3) =
          >>=-eq-ok (reports_of hs rounds report inputs pair.1) _ (reports, last) h2 in
        let (r1, r2, r3) = reports_of_lem fresh new takes inputs smalls more.0 more.1 (
          ap (λ (p : Histogram × Histogram). reports_of hs rounds report inputs p.1) (sym same)
          ∙ e3) in
        let first : pair.0 ≡ tally (rounds.calls input) fresh = ap (λ p. p.0) same ∙ own_h in
        let both1 : own_of pair.0 input ∷ more.0 ≡ reports = cc in
        let both2 : more.1 ≡ last = cc in
        (
          sym both1 ∙ ap (λ x. own_of x input ∷ more.0) first ∙ ap (◌∷◌ (own fresh input)) r1,
          sym both2 ∙ r2,
          (sym (ap hs.len own_h) ∙ counted ∙ omega (arith, empty), r3),
        )
