-- ===== src/Common/Text.antt =====
-- Equality of texts.
use Prim.Native.String.{String}
use mathlib.Core.Path.{◌≡◌}
use mathlib.Core.Logic.{inl, inr}
use mathlib.Core.Bool.{Bool, true, false}
use mathlib.Core.List.{List}
use native.Mathlib.Omega.{arith}
use text.Mathlib.Text.{◌==◌}
use text.Mathlib.TextEquality.{eq_iff}
use grpc_quic_rs.Common.Tests.{Bool-cases}

abbrev pub str_eq : String → String → Bool
str_eq s t = s == t

pub str_eq_iff : (s t : String) → ((str_eq s t ≡ true) → s ≡ t) × (s ≡ t → str_eq s t ≡ true)
str_eq_iff s t = eq_iff s t

pub differs : (s t : String) → str_eq s t ≡ false → ¬ (s ≡ t)
differs s t e p = ground (arith, (str_eq_iff s t).1 p)

unfoldable pub text_discrete : Discrete String
unfolding Bool-cases differs
text_discrete s t = elim (Bool-cases (str_eq s t)) [
  | inl e ↦ yes ((str_eq_iff s t).0 e)
  | inr e ↦ no (differs s t e)
]

pub texts_discrete : Discrete (List String)
texts_discrete = hlevel text_discrete
