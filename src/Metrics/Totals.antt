-- ===== src/Metrics/Totals.antt =====
-- What the counters of crates/grpc-quic-metrics/src/prometheus.rs hold after a trace of calls.
use grpc_quic_rs.Common.{
  ℕ, ◌+◌, ◌%◌, String, ◌≡◌, List, [], ◌∷◌, Option, u64_mod, arith, ite, sum, map, texts_discrete,
  if_pos, if_neg,
}
use grpc_quic_rs.Metrics.{
  CounterVec, Metrics, Record, connection, stream, request, reconnect, sent, received, get_metrics,
  record_one, record_all,
}

-- The counters, and the fields that hold them.
pub data Family : Type 0 where
  connections streams requests reconnects bytes_sent bytes_received : Family

pub Family-discrete : Discrete Family
Family-discrete = hlevel

abbrev pub field : {V : Type 0} → Family → Metrics V → V
field connections m = m.connections_total
field streams m = m.streams_total
field requests m = m.requests_total
field reconnects m = m.reconnects_total
field bytes_sent m = m.bytes_sent
field bytes_received m = m.bytes_received

-- Where a call counts, and how much.
abbrev pub family : Record → Family
family (connection role) = connections
family (stream role) = streams
family (request role path) = requests
family reconnect = reconnects
family (sent role n) = bytes_sent
family (received role n) = bytes_received

abbrev pub labels : Record → List String
labels (connection role) = role ∷ []
labels (stream role) = role ∷ []
labels (request role path) = role ∷ path ∷ []
labels reconnect = []
labels (sent role n) = role ∷ []
labels (received role n) = role ∷ []

abbrev pub amount : Record → ℕ
amount (sent role n) = n
amount (received role n) = n
amount (connection role) = 1
amount (stream role) = 1
amount (request role path) = 1
amount reconnect = 1

abbrev pub share : Family → List String → Record → ℕ
share k ls r =
    ite (Family-discrete (family r) k) (ite (texts_discrete (labels r) ls) (amount r) 0) 0

module _ (c : CounterVec) where
  open c use {V, value, inc_by, value-inc_by_self, value-inc_by_other, value-lt}

  counted :
      (v : V) (ls others : List String) (n : ℕ)
      → value (inc_by v others n) ls ≡ (value v ls + ite (texts_discrete others ls) n 0) % u64_mod
  counted v ls others n = elim (texts_discrete others ls) [
    | yes e ↦ rw (if_pos _ e, e) (value-inc_by_self v ls n)
    | no ne ↦ rw (if_neg _ ne, value-inc_by_other v others ls n ne) (omega (arith, value-lt v ls))
  ]

  record_step :
      (k : Family) (ls : List String) (r : Record) (cell : Option (Metrics V))
      → value (field k (get_metrics c (record_one c r cell))) ls
        ≡ (value (field k (get_metrics c cell)) ls + share k ls r) % u64_mod
  unfolding record_one
  record_step connections ls (connection role) cell =
      ground (arith, counted (get_metrics c cell).connections_total ls (role ∷ []) 1)
  record_step streams ls (stream role) cell =
      ground (arith, counted (get_metrics c cell).streams_total ls (role ∷ []) 1)
  record_step requests ls (request role path) cell =
      ground (arith, counted (get_metrics c cell).requests_total ls (role ∷ path ∷ []) 1)
  record_step reconnects ls reconnect cell =
      ground (arith, counted (get_metrics c cell).reconnects_total ls [] 1)
  record_step bytes_sent ls (sent role n) cell =
      ground (arith, counted (get_metrics c cell).bytes_sent ls (role ∷ []) n)
  record_step bytes_received ls (received role n) cell =
      ground (arith, counted (get_metrics c cell).bytes_received ls (role ∷ []) n)
  record_step k ls r cell = ground (arith, value-lt (field k (get_metrics c cell)) ls)

  -- After any trace of calls each counter has gained, modulo 2^64, exactly what the calls for its
  -- family and its labels add up to; the first call finds the counters fresh or as they are.
  pub record_all-sum :
      (k : Family) (ls : List String) (rs : List Record) (cell : Option (Metrics V))
      → value (field k (get_metrics c (record_all c rs cell))) ls
        ≡ (value (field k (get_metrics c cell)) ls + sum (map (share k ls) rs)) % u64_mod
  unfolding record_all
  record_all-sum k ls [] cell = omega (arith, value-lt (field k (get_metrics c cell)) ls)
  record_all-sum k ls (r ∷ rs) cell =
      omega (arith, record_step k ls r cell, record_all-sum k ls rs (record_one c r cell))
