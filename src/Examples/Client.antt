-- ===== src/Examples/Client.antt =====
-- examples/src/client.rs: the example client. tonic's generated client is a parameter: what each
-- call returns, over the channel.
pub mod Run
use grpc_quic_rs.Common.{String, List, [], ◌∷◌, ◌++◌, Result, ok, err, push_str}
use grpc_quic_rs.Errors.{ClientError}
use grpc_quic_rs.Examples.Service.{HelloRequest, HelloResponse}
use grpc_quic_rs.Client.Channel
use grpc_quic_rs.Client.Channel.{QuicChannel, Addresses}
use grpc_quic_rs.Client.Retry.{Float}

-- `StreamingServiceClient`: unary answers, and streams of answers.
pub record Remote (S : Type 0) : Type 0 where
  pub say_hello : HelloRequest → Result HelloResponse S
  pub lots_of_requests : List HelloRequest → Result HelloResponse S
  pub lots_of_replies : HelloRequest → Result (List (Result HelloResponse S)) S
  pub bidi_hello : List HelloRequest → Result (List (Result HelloResponse S)) S

-- The errors that `?` boxes.
pub data MainError (Q S : Type 0) : Type 0 where
  connecting : ClientError Q → MainError Q S
  status : S → MainError Q S

-- What is printed, and how a part of `main` ends.
abbrev pub Printed : Type 0 → Type 0 → Type 0
Printed A E = List String × Result A E

abbrev pub say : {E : Type 0} → String → Printed (Unit {0}) E
say line = (line ∷ [], ok tt)

abbrev pub lift : {A E F : Type 0} → (E → F) → Result A E → Printed A F
lift f (ok a) = ([], ok a)
lift f (err e) = ([], err (f e))

infixl 5 ◌>>=◌
abbrev pub ◌>>=◌ : {A B E : Type 0} → Printed A E → (A → Printed B E) → Printed B E
(out, err e) >>= f = (out, err e)
(out, ok a) >>= f = let (more, res) = f a in (out ++ more, res)

named : String → HelloRequest
named s = record { name = s }

-- The loops over a stream of replies.
print_replies :
    {Q S : Type 0} → String → List (Result HelloResponse S) → Printed (Unit {0}) (MainError Q S)
print_replies label [] = ([], ok tt)
print_replies label (err e ∷ stream) = ([], err (status e))
print_replies label (ok res ∷ stream) =
    let (more, end) = print_replies label stream in (push_str label res.message ∷ more, end)

module _ {Q S : Type 0} (client : Remote S) where
  calls : Printed (Unit {0}) (MainError Q S)
  unfolding named print_replies
  calls = do
    _ ← say "\n--- 1. Unary Call ---"
    response ← lift status (client.say_hello (named "Alice"))
    _ ← say (push_str "Response: " response.message)
    _ ← say "\n--- 2. Client Streaming Call ---"
    greeting ←
        lift status (client.lots_of_requests (named "Bob" ∷ named "Charlie" ∷ named "David" ∷ []))
    _ ← say (push_str "Response: " greeting.message)
    _ ← say "\n--- 3. Server Streaming Call ---"
    response_stream ← lift status (client.lots_of_replies (named "Eve"))
    _ ← print_replies "Received reply: " response_stream
    _ ← say "\n--- 4. Bidirectional Streaming Call ---"
    bidi_stream ←
        lift status (client.bidi_hello (named "Frank" ∷ named "Grace" ∷ named "Heidi" ∷ []))
    print_replies "Received bidi reply: " bidi_stream

module _ {A C H K Q S : Type 0} (a : Addresses A) (f : Float) where
  -- `main`: `tls` is what `client_tls` gives, and `client_of` tonic's client over a channel.
  pub main : K → (QuicChannel A C H K f.F → Remote S) → Printed (Unit {0}) (MainError Q S)
  unfolding calls
  main tls client_of = do
    _ ← say "Connecting to gRPC-over-QUIC server at 127.0.0.1:50051..."
    channel ←
        lift connecting (Channel.connect a (Channel.tls tls (Channel.builder f)) "127.0.0.1:50051")
    calls (client_of channel)
