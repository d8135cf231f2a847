-- ===== src/Metrics/Tests.antt =====
-- An example of counters (crates/grpc-quic-metrics/src/prometheus.rs): two tasks record at once.
use mathlib.Core.Quot
use grpc_quic_rs.Common.{◌+◌, ◌%◌, List, [], ◌∷◌, none, u64_mod, ◌≡◌}
use grpc_quic_rs.Fixtures.{counters}
use grpc_quic_rs.Metrics.{Record, sent, connection, get_metrics}
use grpc_quic_rs.Metrics.Totals.{bytes_sent}
use grpc_quic_rs.Metrics.Interleaving.{neither, left, right}
use grpc_quic_rs.Metrics.Bag.{Bag, none_left, one_more, after, shown, shares, counters_forget_order}

abbrev client_task : List Record
client_task = sent "client" 5 ∷ sent "client" 7 ∷ []

abbrev server_task : List Record
server_task = connection "client" ∷ sent "server" 2 ∷ []

abbrev run : List Record
run = sent "client" 5 ∷ connection "client" ∷ sent "server" 2 ∷ sent "client" 7 ∷ []

abbrev in_order : List Record
in_order = sent "client" 5 ∷ sent "client" 7 ∷ connection "client" ∷ sent "server" 2 ∷ []

counters_forget_order_example :
    (◌≡◌ {A = Bag} (Quot.mk run) (Quot.mk in_order))
    × (after counters bytes_sent ("client" ∷ []) none run
        ≡ shown counters bytes_sent ("client" ∷ []) none (Quot.mk in_order))
    × (after counters bytes_sent ("client" ∷ []) none run
        ≡ (counters.value (get_metrics counters none).bytes_sent ("client" ∷ [])
            + shares bytes_sent ("client" ∷ []) (client_task ∷ server_task ∷ []))
          % u64_mod)
counters_forget_order_example =
    counters_forget_order counters bytes_sent ("client" ∷ []) none (client_task ∷ server_task ∷ [])
      run
      (one_more (left (right (right (left neither)))) (one_more (left (left neither)) none_left))
