-- ===== src/Benches/Latency.antt =====
-- Recording latencies (crates/grpc-quic-benches/src/lib.rs). The `hdrhistogram` package is a
-- parameter; the histogram of the thread is passed on explicitly.
use grpc_quic_rs.Common.{ℕ, ◌+◌, ◌-◌, ◌/◌, ◌%◌, min, Result, ok, err, ◌>>=◌, ◌≡◌, Duration, u64_mod}
use grpc_quic_rs.Benches.{Panic, unwrap}

-- `Histogram<u64>`; `F` is `f64`, `new` is `new(3)`, and `lowest` and `highest` are `min` and `max`.
-- The count of values stops at `u64::MAX`.
pub record Histograms (F : Type 0) : Type 1 where
  pub Histogram : Type 0
  pub E : Type 0
  pub new : Result Histogram E
  pub record_value : Histogram → ℕ → Result Histogram E
  pub value_at_percentile : Histogram → F → ℕ
  pub mean : Histogram → F
  pub lowest : Histogram → ℕ
  pub highest : Histogram → ℕ
  pub len : Histogram → ℕ
  pub len-new : (h : Histogram) → new ≡ ok h → len h ≡ 0
  pub len-record_value :
      (h k : Histogram) (v : ℕ) → record_value h v ≡ ok k → len k ≡ min (len h + 1) (u64_mod - 1)

-- `as_micros() as u64`
abbrev pub elapsed_micros : Duration → Duration → ℕ
elapsed_micros start now = (now - start) / 1000 % u64_mod

module _ {F : Type 0} (hs : Histograms F) where
  open hs use {Histogram}

  -- `h.borrow_mut().record(elapsed).ok()`
  abbrev kept : Histogram → Result Histogram hs.E → Histogram
  kept h (ok k) = k
  kept h (err e) = h

  abbrev pub record_latency : Duration → Duration → Histogram → Histogram
  record_latency start now h = kept h (hs.record_value h (elapsed_micros start now))

  -- The drained histogram, and the one that the thread is left with.
  abbrev pub take_histogram : Histogram → Result (Histogram × Histogram) Panic
  take_histogram h = do fresh ← unwrap hs.new; ok (h, fresh)
