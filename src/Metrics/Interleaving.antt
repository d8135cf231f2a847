-- ===== src/Metrics/Interleaving.antt =====
-- Two tasks that record at the same time (crates/grpc-quic-metrics/src/prometheus.rs).
use grpc_quic_rs.Common.{ℕ, ◌+◌, String, ◌≡◌, refl, List, [], ◌∷◌, Option, sum, map, arith}
use grpc_quic_rs.Metrics.{CounterVec, Metrics, Record, get_metrics, record_all}
use grpc_quic_rs.Metrics.Totals.{Family, field, share, record_all-sum}

-- An order in which the calls of two tasks take place.
pub data Interleaved : List Record → List Record → List Record → Type 0 where
  neither : Interleaved [] [] []
  left :
      {r : Record} {xs ys zs : List Record}
      → Interleaved xs ys zs
      → Interleaved (r ∷ xs) ys (r ∷ zs)
  right :
      {r : Record} {xs ys zs : List Record}
      → Interleaved xs ys zs
      → Interleaved xs (r ∷ ys) (r ∷ zs)

sum-Interleaved :
    (f : Record → ℕ) {xs ys zs : List Record}
    → Interleaved xs ys zs
    → sum (map f zs) ≡ sum (map f xs) + sum (map f ys)
sum-Interleaved f neither = refl
sum-Interleaved f (left i) = omega (arith, sum-Interleaved f i)
sum-Interleaved f (right i) = omega (arith, sum-Interleaved f i)

module _ (c : CounterVec) where
  open c use {V, value}

  -- However the calls of two tasks interleave, every counter ends as if one task had recorded after
  -- the other.
  pub interleaving :
      (k : Family) (ls : List String) (xs ys zs : List Record)
      → Interleaved xs ys zs
      → (cell : Option (Metrics V))
      → value (field k (get_metrics c (record_all c zs cell))) ls
        ≡ value (field k (get_metrics c (record_all c ys (record_all c xs cell)))) ls
  interleaving k ls xs ys zs i cell = omega (
    arith,
    record_all-sum c k ls zs cell,
    record_all-sum c k ls xs cell,
    record_all-sum c k ls ys (record_all c xs cell),
    sum-Interleaved (share k ls) i,
  )
