-- ===== src/Core/Http.antt =====
-- What the crates use of the `http` and `http-body` packages: maps of headers, and the frames of a
-- body as `into_data` and `into_trailers` show them.
use grpc_quic_rs.Common.{
  ℕ, ◌+◌, String, Bytes, codes, leb, ◌&&◌, if◌then◌else◌, Option, none, some, List, [], ◌∷◌, map,
  ◌≡◌, ◌≢◌,
}

-- The name that a text stands for: `HeaderName` is in lower case.
abbrev pub to_ascii_lowercase : ℕ → ℕ
to_ascii_lowercase c = if leb 65 c && leb c 90 then c + 32 else c

abbrev pub header_name : String → Bytes
header_name text = map to_ascii_lowercase (codes text)

abbrev pub first {ℓ} : {A : Type ℓ} → List A → Option A
first [] = none
first (x ∷ xs) = some x

-- `http::HeaderMap`, and its documented laws: a name can have several values, of which `get` gives
-- the first, and `insert` replaces all that the name had.
pub record HeaderMap : Type 1 where
  pub H : Type 0
  pub new : H
  pub get : H → String → Option Bytes
  pub get_all : H → Bytes → List Bytes
  pub insert : H → String → Bytes → H
  pub get-first : (h : H) (text : String) → get h text ≡ first (get_all h (header_name text))
  pub get_all-insert_self :
      (h : H) (text : String) (v : Bytes) → get_all (insert h text v) (header_name text) ≡ v ∷ []
  pub get_all-insert_other :
      (h : H) (text : String) (other : Bytes) (v : Bytes)
      → header_name text ≢ other
      → get_all (insert h text v) other ≡ get_all h other

-- A frame is data, or trailers, or of a kind that the code ignores.
pub data Frame (H : Type 0) : Type 0 where
  bytes : Bytes → Frame H
  trailers : H → Frame H
  unknown : Frame H
