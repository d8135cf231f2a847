-- ===== src/Client/Timeout/Meaning.antt =====
-- The duration that a `grpc-timeout` stands for, and what `parse_grpc_timeout` makes of it
-- (crates/grpc-quic-client/src/channel.rs).
use native.Mathlib.Nat.{pow-suc}
use grpc_quic_rs.Common.{
  ℕ, zero, suc, ◌+◌, ◌-◌, ◌*◌, ◌%◌, ◌^◌, ◌≤◌, ◌<◌, ◌≡◌, refl, [], ◌∷◌, ◌++◌, some, Bytes, Duration,
  u64_mod, All, arith, length, ◌⊎◌, inl, inr, unwrap_or, Option-cases,
}
use grpc_quic_rs.Client.Timeout.{parse_u64, of_unit, split_last, parse_grpc_timeout}
use grpc_quic_rs.Client.Timeout.Laws.{
  IsDigit, spelled, unit_nanos, split_last_lem, unsigned, parse_u64_inv, parse_u64-IsDigit,
}

-- The durations below are `Duration`s that Rust can hold: at most 2^64 seconds.
abbrev pub nanos_mod : ℕ
nanos_mod = u64_mod * 1000000000

of_unit-unit_nanos :
    (u n v : ℕ) → unit_nanos u ≡ some n → v * n < nanos_mod → of_unit u v ≡ some (v * n)
unfolding of_unit
of_unit-unit_nanos u n v unit small = ground arith

pow_step : (x a p : ℕ) → x < a * p → x < a * (p * 10)
pow_step x a p h = grind arith

pow_room : (acc c p : ℕ) → IsDigit c → (acc * 10 + (c - b'0') + 1) * p ≤ (acc + 1) * (p * 10)
pow_room acc c p digit = grind arith

-- `k` digits spell less than 10^k.
spelled-lt :
    (k : ℕ) (text : Bytes) (acc : ℕ)
    → length text ≤ k
    → All IsDigit text
    → spelled acc text < (acc + 1) * 10 ^ k
spelled-lt zero [] acc h _ = omega arith
spelled-lt zero (c ∷ text) acc h _ = absurd (omega arith)
spelled-lt (suc k) [] acc h _ =
    rw pow-suc (pow_step acc (acc + 1) (10 ^ k) (spelled-lt k [] acc (omega arith) tt))
spelled-lt (suc k) (c ∷ text) acc h (digit, digits) =
    let rest = spelled-lt k text (acc * 10 + (c - b'0')) (omega arith) digits in
    rw pow-suc (omega (arith, rest, pow_room acc c (10 ^ k) digit))

-- A digit text below the bounds, and its unit, are read as the duration that they stand for.
parse_exact :
    (c : ℕ) (s : Bytes) (u n : ℕ)
    → unit_nanos u ≡ some n
    → All IsDigit (c ∷ s)
    → spelled 0 (c ∷ s) < u64_mod
    → spelled 0 (c ∷ s) * n < nanos_mod
    → parse_grpc_timeout (c ∷ s ++ u ∷ []) ≡ some (spelled 0 (c ∷ s) * n)
unfolding parse_grpc_timeout
parse_exact c s u n unit digits small fits =
    rw (split_last_lem c s u, parse_u64-IsDigit c s small digits)
      (of_unit-unit_nanos u n (spelled 0 (c ∷ s)) unit fits)

short_fits : (u n v : ℕ) → unit_nanos u ≡ some n → v < 100000000 → v * n < nanos_mod
short_fits u n v unit h = ground arith

-- A timeout as the gRPC protocol has it, one to eight digits and a unit, is read exactly.
pub parse-conforming :
    (c : ℕ) (s : Bytes) (u n : ℕ)
    → unit_nanos u ≡ some n
    → All IsDigit (c ∷ s)
    → length (c ∷ s) ≤ 8
    → parse_grpc_timeout (c ∷ s ++ u ∷ []) ≡ some (spelled 0 (c ∷ s) * n)
parse-conforming c s u n unit digits short =
    let small : spelled 0 (c ∷ s) < 100000000 =
      omega (arith, spelled-lt 8 (c ∷ s) 0 short digits) in
    parse_exact c s u n unit digits (omega arith) (short_fits u n (spelled 0 (c ∷ s)) unit small)

of_unit_inv :
    (u v : ℕ) (d : Duration)
    → of_unit u v ≡ some d
    → v < u64_mod
    → (unit_nanos u ≡ some (unwrap_or 0 (unit_nanos u)))
      × (d ≤ v * unwrap_or 0 (unit_nanos u))
      × (d < nanos_mod)
      × ((d ≡ v * unwrap_or 0 (unit_nanos u)) ⊎ (nanos_mod ≤ v * unwrap_or 0 (unit_nanos u)))
unfolding of_unit
of_unit_inv u v d h small = ground arith

-- How a duration relates to what its text stands for.
pub record Reads (text : Bytes) (unit n : ℕ) (d : Duration) : Type 0 where
  pub known : unit_nanos unit ≡ some n
  pub digits : All IsDigit (unsigned text)
  pub never_longer : d ≤ spelled 0 (unsigned text) * n
  pub exact_or_over :
      (d ≡ spelled 0 (unsigned text) * n) ⊎ (nanos_mod ≤ spelled 0 (unsigned text) * n)
  pub held : d < nanos_mod

-- Whatever text is accepted: it is digits, after an optional `+`, and a unit; the duration is the
-- one that these stand for, unless that is out of a `Duration`'s range, and then a shorter one.
pub parse-Reads :
    (c : ℕ) (s : Bytes) (d : Duration)
    → parse_grpc_timeout (c ∷ s) ≡ some d
    → Reads (split_last c s).0 (split_last c s).1 (unwrap_or 0 (unit_nanos (split_last c s).1)) d
unfolding parse_grpc_timeout
parse-Reads c s d h = elim (Option-cases (parse_u64 (split_last c s).0)) [
  | inl e ↦ absurd (ground arith)
  | inr (v, e) ↦
      let (meaning, small, digits) = parse_u64_inv (split_last c s).0 v e in
      let (known, shorter, held, exact) = of_unit_inv (split_last c s).1 v d (ground arith) small in
      record {
        known = known;
        digits = digits;
        never_longer = rw (← meaning) shorter;
        exact_or_over = rw (← meaning) exact;
        held = held;
      }
]

-- A number of hours whose seconds do not fit 64 bits goes round, and the timeout is shorter than
-- what was asked for.
pub hours_go_round :
    (c : ℕ) (s : Bytes)
    → All IsDigit (c ∷ s)
    → spelled 0 (c ∷ s) < u64_mod
    → u64_mod ≤ spelled 0 (c ∷ s) * 3600
    → (parse_grpc_timeout (c ∷ s ++ b'H' ∷ [])
        ≡ some (spelled 0 (c ∷ s) * 3600 % u64_mod * 1000000000))
      × (spelled 0 (c ∷ s) * 3600 % u64_mod * 1000000000 < spelled 0 (c ∷ s) * 3600000000000)
unfolding parse_grpc_timeout
hours_go_round c s digits small over =
    (rw (split_last_lem c s b'H', parse_u64-IsDigit c s small digits) refl, omega arith)
