-- ===== src/Metrics.antt =====
-- crates/grpc-quic-metrics/src/prometheus.rs: the counters, and what records into them. A family of
-- counters of the `prometheus` package is a parameter.
pub mod Totals
pub mod Bag
mod Interleaving
mod Spans
mod Tests
use grpc_quic_rs.Common.{
  ℕ, ◌+◌, ◌%◌, ◌<◌, String, ◌≡◌, ◌≢◌, List, [], ◌∷◌, Option, none, some, u64_mod, unwrap_or,
}

-- `IntCounterVec`: a counter of 64 bits for each list of label values, 0 at first.
pub record CounterVec : Type 1 where
  pub V : Type 0
  pub fresh : V
  pub value : V → List String → ℕ
  pub inc_by : V → List String → ℕ → V
  pub value-lt : (v : V) (labels : List String) → value v labels < u64_mod
  pub value-fresh : (labels : List String) → value fresh labels ≡ 0
  pub value-inc_by_self :
      (v : V) (labels : List String) (n : ℕ)
      → value (inc_by v labels n) labels ≡ (value v labels + n) % u64_mod
  pub value-inc_by_other :
      (v : V) (labels others : List String) (n : ℕ)
      → labels ≢ others
      → value (inc_by v labels n) others ≡ value v others

pub record Metrics (V : Type 0) : Type 0 where
  pub connections_total : V
  pub streams_total : V
  pub requests_total : V
  pub reconnects_total : V
  pub bytes_sent : V
  pub bytes_received : V

-- The calls of the recorders, for the traces of the code that makes them.
pub data Record : Type 0 where
  connection : String → Record
  stream : String → Record
  request : String → String → Record
  reconnect : Record
  sent : String → ℕ → Record
  received : String → ℕ → Record

module _ (c : CounterVec) where
  open c use {V, fresh, inc_by}

  -- `get_metrics`: the cell of the process is filled at the first use.
  pub get_metrics : Option (Metrics V) → Metrics V
  get_metrics cell =
      unwrap_or
        (record {
          connections_total = fresh;
          streams_total = fresh;
          requests_total = fresh;
          reconnects_total = fresh;
          bytes_sent = fresh;
          bytes_received = fresh;
        })
        cell

  record_connection : String → Option (Metrics V) → Option (Metrics V)
  unfolding get_metrics
  record_connection role cell =
      let m = get_metrics cell in
      some (record m { connections_total = inc_by m.connections_total (role ∷ []) 1 })

  record_stream : String → Option (Metrics V) → Option (Metrics V)
  unfolding get_metrics
  record_stream role cell =
      let m = get_metrics cell in
      some (record m { streams_total = inc_by m.streams_total (role ∷ []) 1 })

  record_request : String → String → Option (Metrics V) → Option (Metrics V)
  unfolding get_metrics
  record_request role path cell =
      let m = get_metrics cell in
      some (record m { requests_total = inc_by m.requests_total (role ∷ path ∷ []) 1 })

  record_reconnect : Option (Metrics V) → Option (Metrics V)
  unfolding get_metrics
  record_reconnect cell =
      let m = get_metrics cell in
      some (record m { reconnects_total = inc_by m.reconnects_total [] 1 })

  record_bytes_sent : String → ℕ → Option (Metrics V) → Option (Metrics V)
  unfolding get_metrics
  record_bytes_sent role n cell =
      let m = get_metrics cell in some (record m { bytes_sent = inc_by m.bytes_sent (role ∷ []) n })

  record_bytes_received : String → ℕ → Option (Metrics V) → Option (Metrics V)
  unfolding get_metrics
  record_bytes_received role n cell =
      let m = get_metrics cell in
      some (record m { bytes_received = inc_by m.bytes_received (role ∷ []) n })

  pub record_one : Record → Option (Metrics V) → Option (Metrics V)
  unfolding record_connection record_stream record_request record_reconnect record_bytes_sent
      record_bytes_received
  record_one (connection role) = record_connection role
  record_one (stream role) = record_stream role
  record_one (request role path) = record_request role path
  record_one reconnect = record_reconnect
  record_one (sent role n) = record_bytes_sent role n
  record_one (received role n) = record_bytes_received role n

  pub record_all : List Record → Option (Metrics V) → Option (Metrics V)
  unfolding record_one
  record_all [] cell = cell
  record_all (r ∷ rs) cell = record_all rs (record_one r cell)
