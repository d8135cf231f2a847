-- ===== src/Benches.antt =====
-- crates/grpc-quic-benches/src/lib.rs: the echo service and the sizes of the benchmarks. An
-- `unwrap` that fails is a panic, and the result of a run then.
pub mod Setup
pub mod Latency
pub mod Report
pub mod Rounds
pub mod Loss
pub mod Latencies
pub mod Handshake
mod Tests
use grpc_quic_rs.Common.{◌≡◌, ℕ, zero, suc, List, [], ◌∷◌, Result, ok, err, Bytes}

pub data Panic : Type 0 where
  panicked : Panic

abbrev pub unwrap : {A E : Type 0} → Result A E → Result A Panic
unwrap (ok a) = ok a
unwrap (err e) = err panicked

pub unwrap-eq-ok : {A E : Type 0} (m : Result A E) (a : A) → unwrap m ≡ ok a → m ≡ ok a
unwrap-eq-ok (ok x) a h = cc
unwrap-eq-ok (err e) a h = absurd (cc)

pub ok_inj : {X E : Type 0} (x y : X) → ◌≡◌ {A = Result X E} (ok x) (ok y) → x ≡ y
ok_inj x y h = cc

-- `pb::Payload`
pub record Payload : Type 0 where
  pub body : Bytes

abbrev pub unary : {S : Type 0} → Payload → Result Payload S
unary request = ok request

abbrev pub payload_sizes : List ℕ
payload_sizes = 64 ∷ 256 ∷ 1024 ∷ 4096 ∷ 16384 ∷ []

abbrev pub concurrency : List ℕ
concurrency = 1 ∷ 4 ∷ 8 ∷ 16 ∷ []

abbrev pub loss_percents : List ℕ
loss_percents = 0 ∷ 1 ∷ 5 ∷ []

zeros : ℕ → Bytes
zeros zero = []
zeros (suc n) = 0 ∷ zeros n

pub make_payload : ℕ → Payload
unfolding zeros
make_payload size = record { body = zeros size }
