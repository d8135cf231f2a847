-- ===== src/Client/Timeout/Laws.antt =====
-- What `parse_grpc_timeout` accepts, and what it returns (crates/grpc-quic-client/src/channel.rs).
use grpc_quic_rs.Common.{
  ℕ, ◌+◌, ◌-◌, ◌*◌, ◌≤◌, ◌<◌, ◌≡◌, refl, [], ◌∷◌, ◌++◌, Option, none, some, Bytes, u64_mod, All,
  arith, ◌==◌, if◌then◌else◌,
}
use grpc_quic_rs.Client.Timeout.{scan, parse_u64, split_last}

abbrev pub IsDigit : ℕ → Type 0
IsDigit c = (b'0' ≤ c) × (c ≤ b'9')

-- The number that the digits of a text spell behind those of `acc`.
abbrev pub spelled : ℕ → Bytes → ℕ
spelled acc [] = acc
spelled acc (c ∷ text) = spelled (acc * 10 + (c - b'0')) text

-- The nanoseconds of the units of the gRPC protocol.
abbrev pub unit_nanos : ℕ → Option ℕ
unit_nanos u =
    if u == b'n'
    then some 1
    else if u == b'u'
    then some 1000
    else if u == b'm'
    then some 1000000
    else if u == b'S'
    then some 1000000000
    else if u == b'M'
    then some 60000000000
    else if u == b'H'
    then some 3600000000000
    else none

spelled_grows : (text : Bytes) (acc : ℕ) → acc ≤ spelled acc text
spelled_grows [] acc = omega arith
spelled_grows (c ∷ text) acc = omega (arith, spelled_grows text (acc * 10 + (c - b'0')))

-- Digits below the bound are read, one by one.
scan-IsDigit :
    (text : Bytes) (acc : ℕ)
    → spelled acc text < u64_mod
    → All IsDigit text
    → scan text acc ≡ some (spelled acc text)
unfolding scan
scan-IsDigit [] acc _ _ = refl
scan-IsDigit (c ∷ text) acc small (digit, digits) =
    let here = acc * 10 + (c - b'0') in
    ground (arith, spelled_grows text here, scan-IsDigit text here small digits)

scan_inv :
    (text : Bytes) (acc r : ℕ)
    → scan text acc ≡ some r
    → acc < u64_mod
    → (r < u64_mod) × (r ≡ spelled acc text) × All IsDigit text
unfolding scan
scan_inv [] acc r read small = ground arith
scan_inv (c ∷ text) acc r read small = ground (arith, scan_inv text (acc * 10 + (c - b'0')) r)

pub split_last_lem : (c : ℕ) (s : Bytes) (u : ℕ) → split_last c (s ++ u ∷ []) ≡ (c ∷ s, u)
unfolding split_last
split_last_lem c [] u = refl
split_last_lem c (x ∷ s) u = rw (split_last_lem x s u)

-- The digits of a text after its sign, if it has one.
abbrev pub unsigned : Bytes → Bytes
unsigned [] = []
unsigned (c ∷ []) = c ∷ []
unsigned (c ∷ x ∷ s) = if c == b'+' then x ∷ s else c ∷ x ∷ s

pub parse_u64_inv :
    (s : Bytes) (r : ℕ)
    → parse_u64 s ≡ some r
    → (r ≡ spelled 0 (unsigned s)) × (r < u64_mod) × All IsDigit (unsigned s)
unfolding parse_u64
parse_u64_inv [] r h = ground arith
parse_u64_inv (c ∷ []) r h = ground (arith, scan_inv (c ∷ []) 0 r)
parse_u64_inv (c ∷ x ∷ s) r h = ground (arith, scan_inv (x ∷ s) 0 r, scan_inv (c ∷ x ∷ s) 0 r)

pub parse_u64-IsDigit :
    (c : ℕ) (s : Bytes)
    → spelled 0 (c ∷ s) < u64_mod
    → All IsDigit (c ∷ s)
    → parse_u64 (c ∷ s) ≡ some (spelled 0 (c ∷ s))
unfolding parse_u64
parse_u64-IsDigit c [] small digits = scan-IsDigit (c ∷ []) 0 small digits
parse_u64-IsDigit c (x ∷ s) small digits = ground (arith, scan-IsDigit (c ∷ x ∷ s) 0 small digits)
