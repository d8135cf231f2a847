-- ===== src/Examples/Service/Streams.antt =====
-- What the streams of the example service carry (examples/src/server.rs).
use grpc_quic_rs.Common.{
  String, List, [], ◌∷◌, ◌++◌, map, Option, none, some, Result, ok, err, ◌≡◌, refl, ap, ◌∙◌, sym,
}
use mathlib.Core.List.{append_assoc, append-nil}
use grpc_quic_rs.Examples.Service.{
  HelloRequest, HelloResponse, Event, all_hello, text3, collect_names, lots_of_requests,
  bidi_stream, bidi_hello, items,
}

-- What stands behind the requests of a stream: nothing, or an error and whatever the client sends
-- after it.
abbrev pub Ending : Type 0 → Type 0
Ending S = Option (S × List (Result HelloRequest S))

module _ {S : Type 0} where
  abbrev pub stream_of : List HelloRequest → Ending S → List (Result HelloRequest S)
  stream_of reqs none = map ok reqs
  stream_of reqs (some (e, more)) = map ok reqs ++ err e ∷ more

  abbrev pub reply : HelloRequest → Result HelloResponse S
  reply req = ok (record { message = text3 "Hello, " req.name "! (Bidi Streaming)" })

  abbrev pub replies_to : List HelloRequest → Ending S → List (Result HelloResponse S)
  replies_to reqs none = map reply reqs
  replies_to reqs (some (e, more)) = map reply reqs ++ err e ∷ []

  abbrev pub answer_to : List String → Ending S → Result HelloResponse S
  answer_to names none = ok (all_hello names)
  answer_to names (some (e, more)) = err e

  bidi_stream_lem :
      (reqs : List HelloRequest) (ending : Ending S)
      → items (bidi_stream (stream_of reqs ending)) ≡ replies_to reqs ending
  unfolding bidi_stream
  bidi_stream_lem [] none = refl
  bidi_stream_lem [] (some (e, more)) = refl
  bidi_stream_lem (req ∷ reqs) none = ap (◌∷◌ (reply req)) (bidi_stream_lem reqs none)
  bidi_stream_lem (req ∷ reqs) (some (e, more)) =
      ap (◌∷◌ (reply req)) (bidi_stream_lem reqs (some (e, more)))

  -- `bidi_hello` answers each request with one reply, in the order of the requests; an error of the
  -- client's stream is passed on behind them and ends the replies, whatever comes after it.
  pub bidi_hello_lem :
      (reqs : List HelloRequest) (ending : Ending S)
      → (events : List (Event S)) × ((bidi_hello (stream_of reqs ending)).1 ≡ ok events)
        × (items events ≡ replies_to reqs ending)
  unfolding bidi_hello
  bidi_hello_lem reqs ending =
      (bidi_stream (stream_of reqs ending), refl, bidi_stream_lem reqs ending)

  collect_names_lem :
      (names : List String) (reqs : List HelloRequest) (ending : Ending S)
      → (collect_names names (stream_of reqs ending)).1
        ≡ answer_to (names ++ map (λ r. r.name) reqs) ending
  unfolding collect_names
  collect_names_lem names [] none = ap (λ l. ok (all_hello l)) (sym (append-nil names))
  collect_names_lem names [] (some (e, more)) = refl
  collect_names_lem names (req ∷ reqs) none =
      collect_names_lem (names ++ req.name ∷ []) reqs none
      ∙ ap (λ l. ok (all_hello l)) (append_assoc names (req.name ∷ []) (map (λ r. r.name) reqs))
  collect_names_lem names (req ∷ reqs) (some (e, more)) =
      collect_names_lem (names ++ req.name ∷ []) reqs (some (e, more))

  -- `lots_of_requests` greets the names of all requests, in their order, if the client's stream ends
  -- without an error, and otherwise fails with the first one, whatever comes after it.
  pub lots_of_requests_lem :
      (reqs : List HelloRequest) (ending : Ending S)
      → (lots_of_requests (stream_of reqs ending)).1 ≡ answer_to (map (λ r. r.name) reqs) ending
  unfolding lots_of_requests
  lots_of_requests_lem reqs ending = collect_names_lem [] reqs ending
