-- ===== src/Common/Maps.antt =====
-- Maps as functions, for `HashMap`s and for families of channels.
use mathlib.Core.Path.{◌≡◌}
use mathlib.Core.Logic.{ite, ◌≢◌}
use native.Mathlib.Omega.{arith}

module _ {ℓ κ} {A : Type ℓ} {B : Type κ} (eq : Discrete A) where
  abbrev pub update : (A → B) → A → B → A → B
  update f k v j = ite (eq k j) v (f j)

  pub update_self : (f : A → B) (k : A) (v : B) → update f k v k ≡ v
  update_self f k v = ground arith

  pub update_other : (f : A → B) (k : A) (v : B) (j : A) → k ≢ j → update f k v j ≡ f j
  update_other f k v j h = ground arith
