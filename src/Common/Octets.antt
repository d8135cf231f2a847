-- ===== src/Common/Octets.antt =====
-- Equality of bytes.
use mathlib.Core.Path.{◌≡◌, refl}
use mathlib.Core.Logic.{inl, inr}
use mathlib.Core.Bool.{Bool, true, false, ◌&&◌}
use mathlib.Core.List.{[], ◌∷◌}
use native.Mathlib.Omega.{arith}
use grpc_quic_rs.Common.Lists.{Bytes}
use grpc_quic_rs.Common.Tests.{Bool-cases, ◌==◌}

abbrev pub bytes_eq : Bytes → Bytes → Bool
bytes_eq [] [] = true
bytes_eq [] (y ∷ ys) = false
bytes_eq (x ∷ xs) [] = false
bytes_eq (x ∷ xs) (y ∷ ys) = x == y && bytes_eq xs ys

pub bytes_eq-true : (xs ys : Bytes) → bytes_eq xs ys ≡ true → xs ≡ ys
bytes_eq-true [] [] e = refl
bytes_eq-true [] (y ∷ ys) e = absurd (cc)
bytes_eq-true (x ∷ xs) [] e = absurd (cc)
bytes_eq-true (x ∷ xs) (y ∷ ys) e = ground (arith, bytes_eq-true xs ys)

pub bytes_eq_self : (xs : Bytes) → bytes_eq xs xs ≡ true
bytes_eq_self [] = refl
bytes_eq_self (x ∷ xs) = ground (arith, bytes_eq_self xs)

pub bytes_differ : (xs ys : Bytes) → bytes_eq xs ys ≡ false → ¬ (xs ≡ ys)
bytes_differ xs ys e p = absurd (ground (arith, bytes_eq_self xs))

unfoldable pub bytes_discrete : Discrete Bytes
unfolding Bool-cases bytes_differ
bytes_discrete xs ys = elim (Bool-cases (bytes_eq xs ys)) [
  | inl e ↦ yes (bytes_eq-true xs ys e)
  | inr e ↦ no (bytes_differ xs ys e)
]
