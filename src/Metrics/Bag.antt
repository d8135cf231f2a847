-- ===== src/Metrics/Bag.antt =====
-- What the counters remember of the recorders' calls (crates/grpc-quic-metrics/src/prometheus.rs):
-- the order in which tasks make them is forgotten.
use mathlib.Core.List.{Permᴰ}
use mathlib.Core.List.Permᴰ
use mathlib.Core.Quot
use mathlib.Core.Quot.{Quot}
use native.Mathlib.Nat.{ℕ_set}
use grpc_quic_rs.Common.{
  ℕ, ◌+◌, ◌%◌, String, ◌≡◌, refl, ap, ◌∙◌, List, [], ◌∷◌, ◌++◌, Option, sum, map, arith, u64_mod,
}
use grpc_quic_rs.Metrics.{CounterVec, Metrics, Record, get_metrics, record_all}
use grpc_quic_rs.Metrics.Totals.{Family, field, share, record_all-sum}
use grpc_quic_rs.Metrics.Interleaving.{Interleaved, neither, left, right}

-- The calls of a run, without their order.
abbrev pub Bag : Type 0
Bag = Quot {α = List Record} Permᴰ

-- An order in which the calls of any number of tasks take place.
pub data Scheduled : List (List Record) → List Record → Type 0 where
  none_left : Scheduled [] []
  one_more :
      {trace run whole : List Record} {traces : List (List Record)}
      → Interleaved trace run whole
      → Scheduled traces run
      → Scheduled (trace ∷ traces) whole

-- One task after another.
abbrev pub in_turn : List (List Record) → List Record
in_turn [] = []
in_turn (trace ∷ traces) = trace ++ in_turn traces

Interleaved-perm : {xs ys zs : List Record} → Interleaved xs ys zs → Permᴰ zs (xs ++ ys)
Interleaved-perm neither = Permᴰ.nil
Interleaved-perm (left i) = Permᴰ.cons refl (Interleaved-perm i)
Interleaved-perm (right {r} {xs} {ys} i) =
    Permᴰ.trans (Permᴰ.cons refl (Interleaved-perm i)) (Permᴰ.symm (Permᴰ.middle r xs ys))

Scheduled-perm :
    {traces : List (List Record)} {run : List Record}
    → Scheduled traces run
    → Permᴰ run (in_turn traces)
Scheduled-perm none_left = Permᴰ.nil
Scheduled-perm (one_more {trace} i rest) =
    Permᴰ.trans (Interleaved-perm i) (Permᴰ.append_left trace (Scheduled-perm rest))

sum-perm : (f : Record → ℕ) {xs ys : List Record} → Permᴰ xs ys → sum (map f xs) ≡ sum (map f ys)
sum-perm f Permᴰ.nil = refl
sum-perm f (Permᴰ.cons e p) = omega (arith, ap f e, sum-perm f p)
sum-perm f (Permᴰ.swap e e') = omega (arith, ap f e, ap f e')
sum-perm f (Permᴰ.trans p q) = sum-perm f p ∙ sum-perm f q

-- The sum of what the tasks add, each on its own.
abbrev pub shares : Family → List String → List (List Record) → ℕ
shares k ls [] = 0
shares k ls (trace ∷ traces) = sum (map (share k ls) trace) + shares k ls traces

sum-append :
    (f : Record → ℕ) (xs ys : List Record)
    → sum (map f (xs ++ ys)) ≡ sum (map f xs) + sum (map f ys)
sum-append f [] ys = omega arith
sum-append f (x ∷ xs) ys = omega (arith, sum-append f xs ys)

sum-in_turn :
    (k : Family) (ls : List String) (traces : List (List Record))
    → sum (map (share k ls) (in_turn traces)) ≡ shares k ls traces
sum-in_turn k ls [] = refl
sum-in_turn k ls (trace ∷ traces) =
    omega (arith, sum-append (share k ls) trace (in_turn traces), sum-in_turn k ls traces)

module _ (c : CounterVec) (k : Family) (ls : List String) (cell : Option (Metrics c.V)) where
  open c use {value}

  abbrev pub after : List Record → ℕ
  after run = value (field k (get_metrics c (record_all c run cell))) ls

  pub after-perm : (xs ys : List Record) → Permᴰ xs ys → after xs ≡ after ys
  after-perm xs ys p =
      omega (
        arith,
        record_all-sum c k ls xs cell,
        record_all-sum c k ls ys cell,
        sum-perm (share k ls) p,
      )

  -- What the counter shows after the calls of a bag.
  abbrev pub shown : Bag → ℕ
  shown = Quot.lift ℕ_set after after-perm

  -- A counter sees a run as the bag of its calls, in which the order of the tasks is an equation: if
  -- any number of tasks interleave in any way, the counter shows what it does after the tasks one by
  -- one, which is what it had and what each task adds on its own, modulo 2^64.
  pub counters_forget_order :
      (traces : List (List Record)) (run : List Record)
      → Scheduled traces run
      → (◌≡◌ {A = Bag} (Quot.mk run) (Quot.mk (in_turn traces)))
        × (after run ≡ shown (Quot.mk (in_turn traces)))
        × (after run ≡ (value (field k (get_metrics c cell)) ls + shares k ls traces) % u64_mod)
  counters_forget_order traces run s =
      let same = Quot.sound {r = Permᴰ} (Scheduled-perm s) in
      let total =
        record_all-sum c k ls run cell
        ∙ ap (λ (n : ℕ). (value (field k (get_metrics c cell)) ls + n) % u64_mod)
            (sum-perm (share k ls) (Scheduled-perm s) ∙ sum-in_turn k ls traces) in
      (same, ap shown same, total)
