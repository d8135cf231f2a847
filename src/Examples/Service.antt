-- ===== src/Examples/Service.antt =====
-- examples/src/server.rs: `MyStreamingService`, and `main`. tonic's request streams are the list of
-- what they give, its `Status` is a parameter, and a handler is the events of its run.
pub mod Streams
use grpc_quic_rs.Common.{
  ℕ, zero, suc, String, List, [], ◌∷◌, ◌++◌, Option, none, some, Result, ok, err, Duration,
  from_millis, push_str, decimal,
}

pub record HelloRequest : Type 0 where
  pub name : String

pub record HelloResponse : Type 0 where
  pub message : String

-- What a handler, or the stream that it returns, does.
pub data Event (S : Type 0) : Type 0 where
  printed : String → Event S
  yielded : Result HelloResponse S → Event S
  slept : Duration → Event S

-- `names.join(", ")`
abbrev pub join : String → List String → String
join sep [] = ""
join sep (s ∷ []) = s
join sep (s ∷ t ∷ rest) = push_str s (push_str sep (join sep (t ∷ rest)))

abbrev pub text3 : String → String → String → String
text3 a b c = push_str a (push_str b c)

abbrev pub all_hello : List String → HelloResponse
all_hello names = record {
  message = text3 "Hello to all of you: " (join ", " names) "! (Client Streaming)";
}

module _ {S : Type 0} where
  unfoldable pub say_hello : HelloRequest → List (Event S) × Result HelloResponse S
  say_hello req = (
    printed (push_str "Received Unary Request from: " req.name) ∷ [],
    ok (record { message = text3 "Hello, " req.name "! (Unary)" }),
  )

  -- The loop of `lots_of_requests`, with the names so far.
  collect_names :
      List String → List (Result HelloRequest S) → List (Event S) × Result HelloResponse S
  collect_names names [] = ([], ok (all_hello names))
  collect_names names (err e ∷ stream) = ([], err e)
  collect_names names (ok req ∷ stream) =
      let (events, res) = collect_names (names ++ req.name ∷ []) stream in
      (printed (push_str "  Client Stream message: " req.name) ∷ events, res)

  unfoldable pub lots_of_requests :
      List (Result HelloRequest S) → List (Event S) × Result HelloResponse S
  unfolding collect_names
  lots_of_requests stream =
      let (events, res) = collect_names [] stream in
      (printed "Received Client Streaming Request..." ∷ events, res)

  -- The loop `for i in 1..=5`, from `i` on.
  replies_from : ℕ → ℕ → String → List (Event S)
  replies_from zero i name = []
  replies_from (suc left) i name =
      yielded (
        ok (record {
          message =
              push_str "Reply #" (push_str (decimal i) (text3 " for " name " (Server Streaming)"));
        }))
      ∷ slept (from_millis 100)
      ∷ replies_from left (suc i) name

  -- The events before the stream is returned, and those of the stream.
  unfoldable pub lots_of_replies : HelloRequest → List (Event S) × Result (List (Event S)) S
  unfolding replies_from
  lots_of_replies req = (
    printed (push_str "Received Server Streaming Request from: " req.name) ∷ [],
    ok (replies_from 5 1 req.name),
  )

  -- The loop of `bidi_hello`; in `try_stream!` a `?` yields the error and ends the stream.
  bidi_stream : List (Result HelloRequest S) → List (Event S)
  bidi_stream [] = []
  bidi_stream (err e ∷ in_stream) = yielded (err e) ∷ []
  bidi_stream (ok req ∷ in_stream) =
      printed (push_str "  Bidi Stream message: " req.name)
      ∷ yielded (ok (record { message = text3 "Hello, " req.name "! (Bidi Streaming)" }))
      ∷ bidi_stream in_stream

  unfoldable pub bidi_hello :
      List (Result HelloRequest S) → List (Event S) × Result (List (Event S)) S
  unfolding bidi_stream
  bidi_hello in_stream =
      (printed "Received Bidirectional Streaming Request..." ∷ [], ok (bidi_stream in_stream))

  -- The items of a stream, and the time that it sleeps.
  abbrev pub items : List (Event S) → List (Result HelloResponse S)
  items [] = []
  items (yielded r ∷ events) = r ∷ items events
  items (_ ∷ events) = items events
