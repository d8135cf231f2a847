-- ===== src/Examples/Client/Run.antt =====
-- The example client against the example service (examples/src/client.rs and server.rs).
use grpc_quic_rs.Common.{decimal, String, List, [], ◌∷◌, map, some, Result, ok, err, ◌≡◌, refl}
use grpc_quic_rs.Examples.Service.{
  HelloResponse, Event, say_hello, lots_of_requests, lots_of_replies, bidi_hello, items,
}
use grpc_quic_rs.Examples.Client.{Remote, main, calls}
use grpc_quic_rs.Client.Channel
use grpc_quic_rs.Client.Channel.Connect.{connect_literal}
use grpc_quic_rs.Client.Channel.{QuicChannel, Addresses}
use grpc_quic_rs.Client.Retry.{Float}

abbrev delivered :
    {S : Type 0} → Result (List (Event S)) S → Result (List (Result HelloResponse S)) S
delivered (ok events) = ok (items events)
delivered (err e) = err e

-- A client whose calls reach the service, and whose streams are delivered whole.
abbrev pub served : {S : Type 0} → Remote S
served = record {
  say_hello = λ req. (say_hello req).1;
  lots_of_requests = λ reqs. (lots_of_requests (map ok reqs)).1;
  lots_of_replies = λ req. delivered (lots_of_replies req).1;
  bidi_hello = λ reqs. delivered (bidi_hello (map ok reqs)).1;
}

abbrev pub transcript : List String
transcript =
    "Connecting to gRPC-over-QUIC server at 127.0.0.1:50051..." ∷ "\n--- 1. Unary Call ---"
    ∷ "Response: Hello, Alice! (Unary)" ∷ "\n--- 2. Client Streaming Call ---"
    ∷ "Response: Hello to all of you: Bob, Charlie, David! (Client Streaming)"
    ∷ "\n--- 3. Server Streaming Call ---" ∷ "Received reply: Reply #1 for Eve (Server Streaming)"
    ∷ "Received reply: Reply #2 for Eve (Server Streaming)"
    ∷ "Received reply: Reply #3 for Eve (Server Streaming)"
    ∷ "Received reply: Reply #4 for Eve (Server Streaming)"
    ∷ "Received reply: Reply #5 for Eve (Server Streaming)"
    ∷ "\n--- 4. Bidirectional Streaming Call ---"
    ∷ "Received bidi reply: Hello, Frank! (Bidi Streaming)"
    ∷ "Received bidi reply: Hello, Grace! (Bidi Streaming)"
    ∷ "Received bidi reply: Hello, Heidi! (Bidi Streaming)" ∷ []

-- Wherever its address is read, the client prints the answers of the service to its four calls, in
-- order, and ends well.
pub main-served :
    {A K S : Type 0} (C H Q : Type 0) (a : Addresses A) (f : Float) (tls : K) (addr : A)
    → a.parse "127.0.0.1:50051" ≡ some addr
    → main {C = C} {H = H} {Q = Q} {S = S} a f tls (λ channel. served) ≡ (transcript, ok tt)
unfolding main calls say_hello lots_of_requests lots_of_replies bidi_hello decimal
main-served {A} {K} C H Q a f tls addr h =
    rw
      (connect_literal {C = C} {H = H} {Q = Q} a (Channel.tls tls (Channel.builder f))
        "127.0.0.1:50051" addr h)
      refl
