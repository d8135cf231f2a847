-- ===== src/Common/Std.antt =====
-- What the crates use of Rust's standard library: `Result`, `Poll`, `Duration`, `Display`,
-- `io::Error`, the widths of the integer types.
use Prim.Native.Nat.{ℕ, zero, suc, ◌*◌, ◌%◌, ◌/◌, ◌^◌, ◌-◌, compare, Ordering}
use Prim.Native.String.{String, ◌++◌}
use mathlib.Core.Path.{◌≡◌, refl}
use mathlib.Core.Logic.{◌⊎◌, inl, inr}
use mathlib.Core.Option.{Option, none, some}

pub data Result {ℓ κ} (A : Type ℓ) (E : Type κ) : Type (ℓ ⊔ κ) where
  ok : A → Result A E
  err : E → Result A E

infixl 5 ◌>>=◌
abbrev pub ◌>>=◌ {ℓ κ μ} :
    {A : Type ℓ} {B : Type κ} {E : Type μ} → Result A E → (A → Result B E) → Result B E
ok a >>= f = f a
err e >>= f = err e

abbrev pub map_err {ℓ κ μ} :
    {A : Type ℓ} {E : Type κ} {F : Type μ} → (E → F) → Result A E → Result A F
map_err f (ok a) = ok a
map_err f (err e) = err (f e)

abbrev pub ok_or {ℓ κ} : {A : Type ℓ} {E : Type κ} → E → Option A → Result A E
ok_or e none = err e
ok_or e (some a) = ok a

pub Result-cases {ℓ κ} :
    {A : Type ℓ} {E : Type κ} (r : Result A E) → ((a : A) × (r ≡ ok a)) ⊎ ((e : E) × (r ≡ err e))
Result-cases (ok a) = inl (a, refl)
Result-cases (err e) = inr (e, refl)

-- Inversion of a successful chain.
pub >>=-eq-ok {ℓ κ μ} :
    {A : Type ℓ} {B : Type κ} {E : Type μ} (m : Result A E) (f : A → Result B E) (b : B)
    → (m >>= f) ≡ ok b
    → (a : A) × (m ≡ ok a) × (f a ≡ ok b)
>>=-eq-ok (ok a) f b h = (a, refl, h)
>>=-eq-ok (err e) f b h = absurd (cc)

pub map_err-eq-ok {ℓ κ μ} :
    {A : Type ℓ} {E : Type κ} {F : Type μ} (f : E → F) (m : Result A E) (a : A)
    → map_err f m ≡ ok a
    → m ≡ ok a
map_err-eq-ok f (ok x) a h = cc
map_err-eq-ok f (err e) a h = absurd (cc)

pub ok_or-eq-ok {ℓ κ} :
    {A : Type ℓ} {E : Type κ} (e : E) (m : Option A) (a : A) → ok_or e m ≡ ok a → m ≡ some a
ok_or-eq-ok e none a h = absurd (cc)
ok_or-eq-ok e (some x) a h = cc

abbrev pub unwrap_or {ℓ} : {A : Type ℓ} → A → Option A → A
unwrap_or d none = d
unwrap_or d (some a) = a

pub data Poll {ℓ} (A : Type ℓ) : Type ℓ where
  pending : Poll A
  ready : A → Poll A

-- `Display`, which `to_string` and `format!` call.
pub record Display {ℓ} (A : Type ℓ) : Type ℓ where
  pub display : A → String

abbrev pub to_string {ℓ} : {A : Type ℓ} ⦃d : Display A⦄ → A → String
to_string ⦃d⦄ = d.display

instance abbrev pub string_display : Display String
string_display = record { display = λ s. s }

-- `format!("{a}{b}")`
abbrev pub push_str : String → String → String
push_str a b = a ++ b

-- `io::Error`, seen through its text; `io::Error::other(text)` displays `text`.
pub record IoError : Type 0 where
  pub message : String

instance abbrev pub io_error_display : Display IoError
io_error_display = record { display = λ e. e.message }

abbrev pub io_other : String → IoError
io_other s = record { message = s }

-- `u64::MAX + 1` and its like; `as` casts and release arithmetic go round at these.
abbrev pub u64_mod : ℕ
u64_mod = 2 ^ 64

abbrev pub u32_max : ℕ
u32_max = 2 ^ 32 - 1

-- `negsuc n` is -(n + 1).
pub data ℤ : Type 0 where
  pos : ℕ → ℤ
  negsuc : ℕ → ℤ

-- A `u32` `as i32`.
abbrev pub as_i32 : ℕ → ℤ
as_i32 n = elim (compare n (2 ^ 31)) [ Ordering.lt ↦ pos n | _ ↦ negsuc (2 ^ 32 - n - 1) ]

-- A `Duration` in nanoseconds.
abbrev pub Duration : Type 0
Duration = ℕ

abbrev pub from_nanos : ℕ → Duration
from_nanos n = n

abbrev pub from_micros : ℕ → Duration
from_micros n = n * 1000

abbrev pub from_millis : ℕ → Duration
from_millis n = n * 1000000

abbrev pub from_secs : ℕ → Duration
from_secs n = n * 1000000000

abbrev pub as_millis : Duration → ℕ
as_millis d = d / 1000000

-- The decimal text of an unsigned integer; `fuel` bounds the digits.
digit : ℕ → String
digit zero = "0"
digit (suc zero) = "1"
digit (suc (suc zero)) = "2"
digit (suc (suc (suc zero))) = "3"
digit (suc (suc (suc (suc zero)))) = "4"
digit (suc (suc (suc (suc (suc zero))))) = "5"
digit (suc (suc (suc (suc (suc (suc zero)))))) = "6"
digit (suc (suc (suc (suc (suc (suc (suc zero))))))) = "7"
digit (suc (suc (suc (suc (suc (suc (suc (suc zero)))))))) = "8"
digit _ = "9"

decimal_in : ℕ → ℕ → String → String
unfolding digit
decimal_in zero n out = out
decimal_in (suc fuel) n out =
    let text = digit (n % 10) ++ out in
    let rest = decimal_in fuel (n / 10) text in elim (n / 10) [ zero ↦ text | suc _ ↦ rest ]

unfoldable pub decimal : ℕ → String
unfolding decimal_in
decimal n = decimal_in 20 n ""
