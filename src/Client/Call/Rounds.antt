-- ===== src/Client/Call/Rounds.antt =====
-- One attempt of a call (`QuicChannel::call` of crates/grpc-quic-client/src/channel.rs), flat: what
-- each answer of the pool, the network and the server leads to.
use grpc_quic_rs.Common.{
  ℕ, zero, suc, String, List, [], ◌∷◌, ◌++◌, Option, some, Result, ok, err, Display, to_string,
  io_other, unwrap_or, ◌≡◌, refl, Result-cases, inl, inr,
}
use grpc_quic_rs.Core.Body.Client.{ClientRecvBody}
use grpc_quic_rs.Core.Body.Client
use grpc_quic_rs.Core.Http.{HeaderMap}
use grpc_quic_rs.Errors.{ClientError, stream_io, request_build, CoreError, core_error_display}
use grpc_quic_rs.Metrics.{request, stream}
use grpc_quic_rs.Client.Pool.{PoolEntry}
use grpc_quic_rs.Client.Retry.{Float, RetryPolicy}
use grpc_quic_rs.Client.Call.{
  Parts, H3Request, Event, metric, get_or_connect, invalidate, send_request, spawn_forward,
  abort_forward, call_uri, call_headers, World, Response, Outcome, then, pause, h3_request,
  on_response, on_stream, on_built, on_entry, attempts,
}

module _ {A C H3 M S T E Q : Type 0} ⦃d : Display E⦄ (m : HeaderMap) (f : Float)
    (w : World C H3 M m.H S T E Q) (retry : RetryPolicy f.F) (remote : A) (server_name : String)
    (deadline : Option ℕ) (parts : Parts M m.H) where
  open m use {H}

  abbrev pub ResultOf : Type 0
  ResultOf = Outcome m f w retry remote server_name deadline parts

  abbrev pub Again : Type 0
  Again = Option (ClientError Q) → ResultOf

  abbrev pub sent_request : H3Request M H
  sent_request = h3_request m f w retry remote server_name deadline parts

  abbrev pub sent_uri : String
  sent_uri = call_uri (unwrap_or server_name parts.authority) parts.path

  abbrev pub response_of : ℕ → S → T → H → Response T H (ClientRecvBody S ℕ ℕ)
  response_of n recv status headers = record {
    status = status;
    headers = headers;
    body = Client.new recv (some n) (some n) deadline;
  }

  abbrev pub opening : List (Event A M H)
  opening = metric (request "client" parts.path) ∷ []

  -- One attempt, flat: what each answer leads to. `again` is what the next attempt does.
  pub data Round (n : ℕ) (again : Again) : ResultOf → Type 0 where
    unconnected :
        (e : ClientError Q)
        → w.pool n ≡ err e
        → Round n again (then (invalidate remote ∷ []) (again (some e)))
    unbuilt :
        (e : String)
        → w.build parts.method sent_uri ≡ err e
        → Round n again (opening, err (request_build e))
    unsent :
        (entry : PoolEntry C H3) (e : CoreError)
        → w.send n entry.h3 sent_request ≡ err e
        → Round n again (
            then
              (opening ++ send_request sent_request ∷ invalidate remote ∷ [])
              (again (some (stream_io (io_other (to_string e))))))
    unanswered :
        (recv : S) (e : E)
        → w.recv_response n recv ≡ err e
        → Round n again (
          opening
              ++ send_request sent_request
                ∷ metric (stream "client")
                ∷ spawn_forward n
                ∷ abort_forward n
                ∷ [],
          err (stream_io (io_other (to_string e))),
        )
    answered :
        (entry : PoolEntry C H3) (recv : S) (status : T) (headers : H)
        → w.send n entry.h3 sent_request ≡ ok recv
        → w.recv_response n recv ≡ ok (status, headers)
        → Round n again (
          opening ++ send_request sent_request ∷ metric (stream "client") ∷ spawn_forward n ∷ [],
          ok (response_of n recv status headers),
        )

  response-Round :
      (n : ℕ) (again : Again) (entry : PoolEntry C H3) (recv : S) (r : Result (T × H) E)
      → w.send n entry.h3 sent_request ≡ ok recv
      → w.recv_response n recv ≡ r
      → Round n again (
          then
            (opening ++ send_request sent_request ∷ metric (stream "client") ∷ spawn_forward n ∷ [])
            (on_response m f w retry remote server_name deadline parts n recv r))
  unfolding on_response h3_request call_headers
  response-Round n again entry recv (ok (status, headers)) p h =
      answered entry recv status headers p h
  response-Round n again entry recv (err e) p h = unanswered recv e h

  stream-Round :
      (n : ℕ) (again : Again) (entry : PoolEntry C H3) (r : Result S CoreError)
      → w.send n entry.h3 sent_request ≡ r
      → Round n again (
          then
            (opening ++ send_request sent_request ∷ [])
            (on_stream m f w retry remote server_name deadline parts n again r))
  unfolding on_stream
  stream-Round n again entry (ok recv) h =
      response-Round n again entry recv (w.recv_response n recv) h refl
  stream-Round n again entry (err e) h = unsent entry e h

  entry-Round :
      (n : ℕ) (again : Again) (r : Result (PoolEntry C H3) (ClientError Q))
      → w.pool n ≡ r
      → Round n again (on_entry m f w retry remote server_name deadline parts n again r)
  unfolding on_entry on_built h3_request
  entry-Round n again (ok entry) h = elim (Result-cases (w.build parts.method sent_uri)) [
    | inl (u, e) ↦ rw e (stream-Round n again entry (w.send n entry.h3 sent_request) refl)
    | inr (x, e) ↦ rw e (unbuilt x e)
  ]
  entry-Round n again (err e) h = unconnected e h

  abbrev pub loop : ℕ → ℕ → Option (ClientError Q) → ResultOf
  loop = attempts m f w retry remote server_name deadline parts

  abbrev pub start_of : ℕ → List (Event A M H)
  start_of n = pause m f w retry remote server_name deadline parts n ++ get_or_connect remote ∷ []

  -- Induction over the loop: what holds when no attempt is left, and is kept by an attempt whose
  -- next one has it, holds.
  pub loop_induction :
      (P : ℕ → ℕ → Option (ClientError Q) → ResultOf → Type 0)
      → ((n : ℕ) (last : Option (ClientError Q)) → P 0 n last (loop 0 n last))
      → ((left n : ℕ) (last : Option (ClientError Q)) (o : ResultOf)
          → Round n (loop left (suc n)) o
          → ((e : Option (ClientError Q)) → P left (suc n) e (loop left (suc n) e))
          → P (suc left) n last (then (start_of n) o))
      → (left n : ℕ) (last : Option (ClientError Q)) → P left n last (loop left n last)
  unfolding attempts
  loop_induction P base step zero n last = base n last
  loop_induction P base step (suc left) n last =
      step left n last _ (entry-Round n (loop left (suc n)) (w.pool n) refl)
        (loop_induction P base step left (suc n))
