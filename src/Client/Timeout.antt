-- ===== src/Client/Timeout.antt =====
-- The `grpc-timeout` header: `parse_grpc_timeout` of crates/grpc-quic-client/src/channel.rs, and
-- the standard library's `str::parse::<u64>` that it calls. A text is its bytes; the header's text
-- is ASCII. Arithmetic is that of a release build, where `val * 3600` goes round at 2^64.
pub mod Laws
pub mod Meaning
mod Tests
use grpc_quic_rs.Common.{
  ℕ, ◌+◌, ◌-◌, ◌*◌, ◌%◌, [], ◌∷◌, Option, none, some, Bool, ◌||◌, Bytes, Duration, from_secs,
  from_millis, from_micros, from_nanos, u64_mod, ltb, ◌==◌, if◌then◌else◌,
}

abbrev and_then {ℓ κ} : {A : Type ℓ} {B : Type κ} → Option A → (A → Option B) → Option B
and_then none f = none
and_then (some a) f = f a

-- `u64::checked_mul` and `u64::checked_add`
checked : ℕ → Option ℕ
checked n = if ltb n u64_mod then some n else none

-- `char::to_digit(10)`
to_digit : ℕ → Option ℕ
to_digit c = if ltb c b'0' || ltb b'9' c then none else some (c - b'0')

-- The loop of `from_str_radix`.
scan : Bytes → ℕ → Option ℕ
unfolding checked to_digit
scan [] n = some n
scan (c ∷ s) n =
    and_then (checked (n * 10)) λ m. and_then (to_digit c) λ d. and_then (checked (m + d)) (scan s)

-- One leading `+` is taken, but not alone.
signed : ℕ → Bytes → Option ℕ
unfolding scan
signed c [] = scan (c ∷ []) 0
signed c (x ∷ s) = if c == b'+' then scan (x ∷ s) 0 else scan (c ∷ x ∷ s) 0

pub parse_u64 : Bytes → Option ℕ
unfolding signed
parse_u64 [] = none
parse_u64 (c ∷ s) = signed c s

-- The `match` on the unit.
of_unit : ℕ → ℕ → Option Duration
of_unit unit val =
    if unit == b'H'
    then some (from_secs (val * 3600 % u64_mod))
    else if unit == b'M'
    then some (from_secs (val * 60 % u64_mod))
    else if unit == b'S'
    then some (from_secs val)
    else if unit == b'm'
    then some (from_millis val)
    else if unit == b'u'
    then some (from_micros val)
    else if unit == b'n'
    then some (from_nanos val)
    else none

-- `split_at(len - 1)` of a text that is not empty: all but the last byte, and that byte.
pub split_last : ℕ → Bytes → Bytes × ℕ
split_last c [] = ([], c)
split_last c (x ∷ s) = let (front, last) = split_last x s in (c ∷ front, last)

unfoldable pub parse_grpc_timeout : Bytes → Option Duration
unfolding parse_u64 of_unit split_last
parse_grpc_timeout [] = none
parse_grpc_timeout (c ∷ s) =
    let (val_str, unit) = split_last c s in and_then (parse_u64 val_str) (of_unit unit)
