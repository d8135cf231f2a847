-- ===== src/Server/Acceptor/Tests.antt =====
-- Examples of requests (crates/grpc-quic-server/src/acceptor.rs): an echo of one message.
use grpc_quic_rs.Common.{
  ℕ, ◌+◌, ◌%◌, String, [], ◌∷◌, none, some, ok, codes, string_display, u64_mod, ◌≡◌,
}
use grpc_quic_rs.Fixtures.{counters}
use grpc_quic_rs.Core.Http.{bytes, trailers}
use grpc_quic_rs.Core.Wire.{Network, ops, metrics}
use grpc_quic_rs.Core.Body.Server.{ServerRecvBody}
use grpc_quic_rs.Metrics.{get_metrics, record_all}
use grpc_quic_rs.Server.Acceptor.{Request, Response, Service, handle_request}
use grpc_quic_rs.Server.Acceptor.Grammar.{IsResponse, handle_request-IsResponse}
use grpc_quic_rs.Server.Acceptor.Delivery.{sent_bytes, handle_request-counts}

abbrev req : Request ℕ String ℕ (Unit {0})
req = record { method = 1; uri = "/svc/Hello"; headers = 0; body = tt }

abbrev response : Response ℕ ℕ String
response = record { head = 200; body = ok (bytes (codes "hey")) ∷ ok (trailers 0) ∷ [] }

abbrev echo : Service (Request ℕ String ℕ (ServerRecvBody ℕ)) (Response ℕ ℕ String) String
echo = record { ready = ok tt; call = λ r. ok response }

abbrev net : Network String
net n = none

handle_request-IsResponse_example :
    ((handle_request net {Q = String} (λ u. u) (some 500) echo req 3).0 ≡ ok tt)
    × IsResponse (ops (handle_request net {Q = String} (λ u. u) (some 500) echo req 3).1)
handle_request-IsResponse_example =
    handle_request-IsResponse net {Q = String} (λ u. u) (some 500) echo req 3

handle_request-counts_example :
    let acts = (handle_request net {Q = String} (λ u. u) (some 500) echo req 3).1 in
    counters.value
      (get_metrics counters (record_all counters (metrics acts) none)).bytes_sent
      ("server" ∷ [])
    ≡ (counters.value (get_metrics counters none).bytes_sent ("server" ∷ [])
        + sent_bytes (ops acts))
      % u64_mod
handle_request-counts_example =
    handle_request-counts String net (λ u. u) (some 500) echo req 3 counters none
