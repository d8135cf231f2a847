-- ===== src/Benches/Report.antt =====
-- The reports of the benchmarks (crates/grpc-quic-benches/src/lib.rs). `f64`, `serde_json`, the
-- file system, the environment, git and the clock are parameters.
pub mod Saved
use grpc_quic_rs.Common.{
  ℕ, String, List, Option, none, some, Result, ok, err, ◌>>=◌, Bool, if◌then◌else◌, Bytes, IoError,
  Option, push_str, [], ◌∷◌, ok_or, decimal, length,
}
use grpc_quic_rs.Benches.{Panic, panicked, unwrap}
use grpc_quic_rs.Benches.Latency.{Histograms}

-- `f64`, by what the reports use of it.
pub record Doubles : Type 1 where
  pub F : Type 0
  pub of_u64 : ℕ → F  -- `as f64`, and the literals, which are whole
  pub div : F → F → F
  pub mul : F → F → F
  pub gt : F → F → Bool

pub record LatencySummary (F : Type 0) : Type 0 where
  pub p50_ms : F
  pub p95_ms : F
  pub p99_ms : F
  pub mean_ms : F
  pub min_ms : F
  pub max_ms : F
  pub samples : ℕ

pub record BenchResult (F : Type 0) : Type 0 where
  pub protocol : String
  pub scenario : String
  pub concurrency : ℕ
  pub loss_percent : ℕ
  pub payload_bytes : ℕ
  pub latency : LatencySummary F
  pub throughput_mib_s : F
  pub commit_sha : String
  pub timestamp : String

-- The answer of `git rev-parse HEAD`.
pub record Output : Type 0 where
  pub success : Bool
  pub stdout : Bytes

pub record Host : Type 0 where
  pub github_sha : Option String
  pub git : Option Output
  pub from_utf8 : Bytes → Option String
  pub trim : String → String

abbrev stdout_of : Host → Option Output → Option String
stdout_of h none = none
stdout_of h (some o) = if o.success then h.from_utf8 o.stdout else none

abbrev trimmed : Host → Option String → String
trimmed h none = ""
trimmed h (some s) = h.trim s

abbrev sha_of : Host → Option String → String
sha_of h (some sha) = sha
sha_of h none = trimmed h (stdout_of h h.git)

abbrev pub current_commit_sha : Host → String
current_commit_sha h = sha_of h h.github_sha

module _ (d : Doubles) (hs : Histograms d.F) where
  open d use {F, of_u64, div, mul, gt}

  abbrev pub from_histogram : hs.Histogram → LatencySummary F
  from_histogram h = record {
    p50_ms = div (of_u64 (hs.value_at_percentile h (of_u64 50))) (of_u64 1000);
    p95_ms = div (of_u64 (hs.value_at_percentile h (of_u64 95))) (of_u64 1000);
    p99_ms = div (of_u64 (hs.value_at_percentile h (of_u64 99))) (of_u64 1000);
    mean_ms = div (hs.mean h) (of_u64 1000);
    min_ms = div (of_u64 (hs.lowest h)) (of_u64 1000);
    max_ms = div (of_u64 (hs.highest h)) (of_u64 1000);
    samples = hs.len h;
  }

  abbrev pub throughput : ℕ → ℕ → F → F
  throughput payload_bytes concurrency mean_secs =
      if gt mean_secs (of_u64 0)
      then div (div (mul (of_u64 payload_bytes) (of_u64 concurrency)) mean_secs)
          (mul (of_u64 1024) (of_u64 1024))
      else of_u64 0

  -- `timestamp` is what the clock says.
  abbrev pub new : Host → String → String → String → ℕ → ℕ → ℕ → hs.Histogram → BenchResult F
  new host timestamp protocol scenario concurrency loss_percent payload_bytes hist = record {
    protocol = protocol;
    scenario = scenario;
    concurrency = concurrency;
    loss_percent = loss_percent;
    payload_bytes = payload_bytes;
    latency = from_histogram hist;
    throughput_mib_s =
        throughput payload_bytes concurrency (div (from_histogram hist).mean_ms (of_u64 1000));
    commit_sha = current_commit_sha host;
    timestamp = timestamp;
  }

-- The file system, and the paths; `manifest_dir` is `CARGO_MANIFEST_DIR`.
pub record Disk (F : Type 0) : Type 1 where
  pub Location : Type 0
  pub E : Type 0
  pub manifest_dir : Location
  pub parent : Location → Option Location
  pub join : Location → String → Location
  pub display : Location → String
  pub to_string_pretty : List (BenchResult F) → Result String E
  pub create_dir_all : Location → Result (Unit {0}) IoError
  pub write : Location → String → Result (Unit {0}) IoError

-- What is asked of the file system.
pub data Written (L : Type 0) : Type 0 where
  directory : L → Written L
  file : L → String → Written L

module _ {F : Type 0} (disk : Disk F) where
  open disk use {Location, parent, join}

  pub out_dir : Result Location Panic
  out_dir = do
    crates ← ok_or panicked (parent disk.manifest_dir)
    root ← ok_or panicked (parent crates)
    ok (join root "bench-output")

  -- The writes behind a directory that could be made.
  abbrev after_dir :
      Location
      → String
      → String
      → Result (Unit {0}) IoError
      → List (Written Location) × Result (Unit {0}) IoError
  after_dir out filename json (err e) = (directory out ∷ [], err e)
  after_dir out filename json (ok u) =
      (directory out ∷ file (join out filename) json ∷ [], disk.write (join out filename) json)

  pub save_json :
      List (BenchResult F)
      → String
      → Result (List (Written Location) × Result (Unit {0}) IoError) Panic
  unfolding out_dir
  save_json reports filename = do
    json ← unwrap (disk.to_string_pretty reports)
    out ← out_dir
    ok (after_dir out filename json (disk.create_dir_all out))

  abbrev or_panic :
      String
      → List (Written Location) × Result (Unit {0}) IoError
      → Result (String × List (Written Location)) Panic
  or_panic line (writes, err e) = err panicked
  or_panic line (writes, ok u) = ok (line, writes)

  -- The line on standard error, and the writes.
  unfoldable pub save_json_or_panic :
      List (BenchResult F) → String → Result (String × List (Written Location)) Panic
  unfolding save_json
  save_json_or_panic reports filename = do
    out ← out_dir
    saved ← save_json reports filename
    or_panic
        (push_str "[bench] saving " (
          push_str (decimal (length reports))
            (push_str " results to " (disk.display (join out filename)))))
        saved
