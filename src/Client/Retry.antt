-- ===== src/Client/Retry.antt =====
-- crates/grpc-quic-client/src/retry.rs: the retry policy. The operations of `f64` are a parameter.
pub mod Backoff
use grpc_quic_rs.Common.{
  ℕ, ◌*◌, ◌^◌, ◌≡◌, ◌<◌, min, ℤ, pos, as_i32, Duration, from_millis, from_secs, as_millis, u64_mod,
}

-- What the policy uses of `f64`. Nothing is assumed of it: what is proved holds for any arithmetic.
pub record Float : Type 1 where
  pub F : Type 0
  pub two : F  -- `2.0`
  pub of_u128 : ℕ → F  -- `as f64`
  pub mul : F → F → F
  pub powi : F → ℤ → F
  pub to_u64 : F → ℕ  -- `as u64`

pub record RetryPolicy (F : Type 0) : Type 0 where
  pub max_attempts : ℕ  -- u32
  pub initial_backoff : Duration
  pub backoff_multiplier : F
  pub max_backoff : Duration

module _ (f : Float) where
  open f use {F, two, of_u128, mul, powi, to_u64}

  abbrev pub default : RetryPolicy F
  default = record {
    max_attempts = 5;
    initial_backoff = from_millis 100;
    backoff_multiplier = two;
    max_backoff = from_secs 30;
  }

  pub backoff_for : RetryPolicy F → ℕ → Duration
  backoff_for self attempt =
      let factor = powi self.backoff_multiplier (as_i32 attempt) in
      let millis = to_u64 (mul (of_u128 (as_millis self.initial_backoff)) factor) in
      min (from_millis millis) self.max_backoff
