-- ===== src/Exchange/Tests.antt =====
-- Examples of bodies on their way: a request's (crates/grpc-quic-client/src/channel.rs), and a
-- response's (crates/grpc-quic-server/src/acceptor.rs).
use grpc_quic_rs.Common.{
  ℕ, zero, suc, String, List, [], ◌∷◌, none, some, Result, ok, err, ready, codes, string_display,
  ◌≡◌, refl, Option, true, inr, from_millis, subst,
}
use grpc_quic_rs.Errors.{CoreError, h3_stream}
use grpc_quic_rs.Client.Retry.{RetryPolicy}
use grpc_quic_rs.Client.Call
use grpc_quic_rs.Client.Call.{Parts, H3Request, call_headers, call}
use grpc_quic_rs.Exchange.{IsCarried}
use grpc_quic_rs.Exchange.Rpc.{outgoing, Delivers, rpc_answers}
use grpc_quic_rs.Core.Http.{Frame, bytes, trailers, unknown}
use grpc_quic_rs.Core.Wire.{Network}
use grpc_quic_rs.Core.Body.Peer.{Peer, peer_stream, Content, content}
use grpc_quic_rs.Core.Body.Server
use grpc_quic_rs.Client.Forward.{forward}
use grpc_quic_rs.Exchange.{request_arrives}
use grpc_quic_rs.Fixtures.{text_headers, whole_floats}
use grpc_quic_rs.Core.Body.Server.{ServerRecvBody}
use grpc_quic_rs.Core.Body.Client
use grpc_quic_rs.Core.Body.Client.{World, ClientRecvBody}
use grpc_quic_rs.Core.Body.Client.Transcript.{IsCalm}
use grpc_quic_rs.Server.Acceptor.{Request, Response, handle_request}

abbrev body : List (Result (Frame ℕ) String)
body = ok (bytes (codes "a")) ∷ ok unknown ∷ ok (bytes (codes "bc")) ∷ ok (trailers 5) ∷ []

abbrev good : Network String
good n = none

-- The same bytes, in other chunks.
abbrev arrived : Peer ℕ
arrived = record { chunks = none ∷ some (codes "ab") ∷ none ∷ some (codes "c") ∷ []; last = some 5 }

request_arrives_example :
    content (Server.polls (peer_stream {E = String}) (λ s. s) 5 (Server.new arrived))
    ≡ record { octets = codes "abc"; rest = ready (some (ok (trailers 5))) ∷ [] }
unfolding forward
request_arrives_example =
    request_arrives ℕ good body arrived refl (record { octets = refl; last = refl })

-- A service that sends back what it reads, between a client whose first request is refused and a
-- server that its second one reaches.
abbrev mirror :
    Request ℕ String text_headers.H (Content text_headers.H)
    → Response (ℕ × text_headers.H) text_headers.H String
mirror r = record { head = (200, text_headers.new); body = ok (bytes r.body.octets) ∷ [] }

abbrev question : List (Result (Frame text_headers.H) String)
question = ok (bytes (codes "a")) ∷ ok unknown ∷ ok (bytes (codes "bc")) ∷ []

-- How h3 cuts the question and the answer.
abbrev heard : Peer text_headers.H
heard = record { chunks = some (codes "ab") ∷ none ∷ some (codes "c") ∷ []; last = none }

abbrev returned : Peer text_headers.H
returned = record { chunks = some (codes "a") ∷ some (codes "bc") ∷ []; last = none }

send : ℕ → H3Request ℕ text_headers.H → Result (Peer text_headers.H) CoreError
send zero r = err (h3_stream "refused")
send (suc n) r = ok returned

abbrev wire : Call.World ℕ ℕ ℕ text_headers.H (Peer text_headers.H) ℕ String String
wire = record {
  pool = λ n. ok (record { quic = 1; h3 = 2 });
  build = λ method uri. ok tt;
  send = λ n h3 r. send n r;
  recv_response = λ n recv. ok (200, text_headers.new);
}

send-returned :
    (n : ℕ) (r : H3Request ℕ text_headers.H) (recv : Peer text_headers.H)
    → send n r ≡ ok recv
    → returned ≡ recv
unfolding send
send-returned zero r recv h = absurd (cc)
send-returned (suc n) r recv h = cc

returned-IsCarried :
    (r : H3Request ℕ text_headers.H)
    → IsCarried (outgoing String good question heard (λ u. u) none mirror r) returned
unfolding handle_request Server.polls Server.poll_frame peer_stream
returned-IsCarried r = record { octets = refl; last = refl }

answered :
    (p : ℕ × text_headers.H)
    → ◌≡◌ {A = Result (ℕ × text_headers.H) String} (ok (200, text_headers.new)) (ok p)
    → ◌≡◌ {A = Option (ℕ × text_headers.H)} (some (200, text_headers.new)) (some p)
answered p h = cc

wire-Delivers : Delivers String good question heard (λ u. u) none mirror wire
unfolding handle_request forward
wire-Delivers = record {
  reaches = record { octets = refl; last = refl };
  sends = λ n h3 r recv h. subst (IsCarried _) (send-returned n r recv h) (returned-IsCarried r);
  answers = λ n h3 r recv p h e. answered p e;
}

abbrev policy : RetryPolicy ℕ
policy = record {
  max_attempts = 2;
  initial_backoff = from_millis 100;
  backoff_multiplier = 2;
  max_backoff = from_millis 150;
}

abbrev hello : Parts ℕ text_headers.H
hello = record { method = 1; authority = none; path = "/svc/Hello"; headers = text_headers.new }

abbrev reply : Call.Response ℕ text_headers.H (ClientRecvBody (Peer text_headers.H) ℕ ℕ)
reply = record {
  status = 200;
  headers = text_headers.new;
  body = Client.new returned (some 1) (some 1) none;
}

quiet : World (Peer text_headers.H) ℕ
quiet = record { now = 5; poll_rx = λ r. ready none; arrive = λ s. s }

quiet-IsCalm : (k : ℕ) → IsCalm k none quiet
unfolding quiet
quiet-IsCalm k = record { early = λ dl h. absurd (cc); sending = inr refl; still = λ s. refl }

rpc_answers_example :
    (◌≡◌ {A = ℕ × text_headers.H} (200, text_headers.new) (200, text_headers.new))
    × (content (
          Client.polls text_headers
            (peer_stream {E = String})
            (quiet ∷ quiet ∷ quiet ∷ [])
            reply.body)
        ≡ record { octets = codes "abc"; rest = ready none ∷ [] })
unfolding call send forward handle_request quiet Server.polls Server.poll_frame peer_stream
rpc_answers_example =
    rpc_answers {A = ℕ} text_headers whole_floats wire policy 7 "host" hello good question heard
      (λ u. u) none mirror 100 (λ v. some v) true none reply (quiet ∷ quiet ∷ quiet ∷ []) refl refl
      wire-Delivers tt refl (λ k. (quiet-IsCalm k, (quiet-IsCalm k, (quiet-IsCalm k, tt))))
