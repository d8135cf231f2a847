-- ===== src/Client/Call/Owned.antt =====
-- Who aborts the task that forwards a request's body (`QuicChannel::call` of
-- crates/grpc-quic-client/src/channel.rs, and `ClientRecvBody` of
-- crates/grpc-quic-core/src/body.rs).
use grpc_quic_rs.Common.{
  ℕ, zero, suc, ◌≤◌, String, List, [], ◌∷◌, ◌++◌, length, take, Option, none, some, Bool, true,
  false, Result, ok, err, Display, to_string, io_other, ◌≡◌, refl, arith, ap, sym, ◌∙◌,
}
use grpc_quic_rs.Core.Body.{RecvStream}
use grpc_quic_rs.Core.Body.Client
use grpc_quic_rs.Core.Body.Client.{ClientRecvBody, taken}
use grpc_quic_rs.Core.Http.{HeaderMap}
use grpc_quic_rs.Errors.{ClientError, stream_io, request_build, core_error_display}
use grpc_quic_rs.Client.Retry.{Float, RetryPolicy}
use grpc_quic_rs.Client.Call.Carried.{rpc_future_bound}
use grpc_quic_rs.Client.Call.Rounds.{
  ResultOf, Round, unconnected, unbuilt, unsent, unanswered, answered, loop, start_of,
  loop_induction,
}
use grpc_quic_rs.Client.Call.{
  Parts, Event, spawn_forward, abort_forward, World, Response, then, pause, attempts, rpc_future,
  timeout_at,
}

-- The tasks that events spawn, and those that they abort.
module _ {A M H : Type 0} where
  abbrev pub spawned : List (Event A M H) → List ℕ
  spawned [] = []
  spawned (spawn_forward n ∷ es) = n ∷ spawned es
  spawned (_ ∷ es) = spawned es

  abbrev pub aborted : List (Event A M H) → List ℕ
  aborted [] = []
  aborted (abort_forward n ∷ es) = n ∷ aborted es
  aborted (_ ∷ es) = aborted es

  aborted-take : (n : ℕ) (es : List (Event A M H)) → aborted es ≡ [] → aborted (take n es) ≡ []
  aborted-take zero es h = refl
  aborted-take (suc n) [] h = refl
  aborted-take (suc n) (abort_forward k ∷ es) h = absurd (cc)
  aborted-take (suc n) (e ∷ es) h = aborted-take n es h

  take_all : (n : ℕ) (es : List (Event A M H)) → length es ≤ n → take n es ≡ es
  take_all zero [] h = refl
  take_all zero (e ∷ es) h = absurd (omega (arith, h))
  take_all (suc n) [] h = refl
  take_all (suc n) (e ∷ es) h = ap (◌∷◌ e) (take_all n es (omega (arith, h)))

module _ {A C H3 M S T E Q : Type 0} ⦃d : Display E⦄ (m : HeaderMap) (f : Float)
    (w : World C H3 M m.H S T E Q) (retry : RetryPolicy f.F) (remote : A) (server_name : String)
    (deadline : Option ℕ) (parts : Parts M m.H) where
  abbrev Out : Type 0
  Out = ResultOf m f w retry remote server_name deadline parts

  -- The handle that a response's body has.
  abbrev held : Result (Response T m.H (ClientRecvBody S ℕ ℕ)) (ClientError Q) → List ℕ
  held (ok r) = taken r.body.abort_handle
  held (err e) = []

  abbrev run : ℕ → ℕ → Option (ClientError Q) → Out
  run = loop m f w retry remote server_name deadline parts

  abbrev IsRound : (n : ℕ) → (Option (ClientError Q) → Out) → Out → Type 0
  IsRound = Round m f w retry remote server_name deadline parts

  abbrev opened : ℕ → Out → Out
  opened n = then (start_of m f w retry remote server_name deadline parts n)

  -- Each task that was spawned is aborted, or held by the response; with a response none is aborted.
  abbrev IsOwned : ℕ → ℕ → Option (ClientError Q) → Out → Type 0
  IsOwned left n last o =
      (spawned o.0 ≡ aborted o.0 ++ held o.1)
      × ((r : Response T m.H (ClientRecvBody S ℕ ℕ)) → o.1 ≡ ok r → aborted o.0 ≡ [])

  IsOwned-round :
      (left n : ℕ) (o : Out)
      → IsRound n (run left (suc n)) o
      → ((e : Option (ClientError Q)) → IsOwned left (suc n) e (run left (suc n) e))
      → IsOwned left n none o
  IsOwned-round left n _ (unconnected e p) h = h (some e)
  IsOwned-round left n _ (unbuilt e p) h = (refl, λ r q. refl)
  IsOwned-round left n _ (unsent entry e p) h = h (some (stream_io (io_other (to_string e))))
  IsOwned-round left n _ (unanswered recv e p) h = (refl, λ r q. absurd (cc))
  IsOwned-round left n _ (answered entry recv status headers p q) h = (refl, λ r e. refl)

  opened_tasks :
      (n : ℕ) (o : Out)
      → (spawned (opened n o).0 ≡ spawned o.0) × (aborted (opened n o).0 ≡ aborted o.0)
  unfolding pause
  opened_tasks zero o = (refl, refl)
  opened_tasks (suc n) o = (refl, refl)

  owned : (left n : ℕ) (last : Option (ClientError Q)) → IsOwned left n last (run left n last)
  unfolding attempts
  owned =
      loop_induction m f w retry remote server_name deadline parts IsOwned
        (λ n last. (refl, λ r q. refl))
        (λ left n last o round h.
          let (own, clean) = IsOwned-round left n o round h in
          let (s, a) = opened_tasks n o in
          (s ∙ own ∙ ap (λ l. l ++ held o.1) (sym a), λ r q. a ∙ clean r q))

  rpc_future-IsOwned :
      (permit : Bool)
      → let o = rpc_future m f w retry remote server_name deadline parts permit in
        (spawned o.0 ≡ aborted o.0 ++ held o.1)
        × ((r : Response T m.H (ClientRecvBody S ℕ ℕ)) → o.1 ≡ ok r → aborted o.0 ≡ [])
  unfolding rpc_future
  rpc_future-IsOwned false = (refl, λ r q. refl)
  rpc_future-IsOwned true = owned retry.max_attempts 0 none

  -- A call that would have its response, but is dropped at its deadline while it awaits that, leaves
  -- its forwarding task behind: its caller has an error and no body, the task was spawned, and
  -- nothing aborts it. Dropped earlier, it aborts nothing either.
  pub expired_detaches :
      (permit : Bool) (r : Response T m.H (ClientRecvBody S ℕ ℕ)) (dl n : ℕ)
      → let future = rpc_future m f w retry remote server_name deadline parts permit in
        future.1 ≡ ok r
        → let late =
            timeout_at m f w retry remote server_name deadline parts (some dl) (some n) future in
          (late.1 ≡ err (request_build "DeadlineExceeded"))
          × (aborted late.0 ≡ [])
          × ((k : ℕ) × (r.body.abort_handle ≡ some k)
              × (length future.0 ≤ n → spawned late.0 ≡ k ∷ []))
  unfolding timeout_at
  expired_detaches permit r dl n h =
      let (own, clean) = rpc_future-IsOwned permit in
      let (k, recv, e) =
        rpc_future_bound m f w retry remote server_name deadline parts permit r h in
      let events = (rpc_future m f w retry remote server_name deadline parts permit).0 in
      (
        refl,
        aborted-take n events (clean r h),
        (
          k,
          ap (λ b. b.abort_handle) e,
          λ enough.
              ap spawned (take_all n events enough)
              ∙ own
              ∙ ap
                  (λ l.
                    l ++ held (rpc_future m f w retry remote server_name deadline parts permit).1)
                  (clean r h)
              ∙ ap held h
              ∙ ap (λ b. taken b.abort_handle) e,
        ),
      )

module _ {A C H3 M S T E Q X : Type 0} ⦃d : Display E⦄ ⦃x : Display X⦄ (m : HeaderMap) (f : Float)
    (w : World C H3 M m.H S T E Q) (retry : RetryPolicy f.F) (remote : A) (server_name : String)
    (deadline : Option ℕ) (parts : Parts M m.H) (h3 : RecvStream S m.H X) where
  -- What a caller aborts that polls the body of its response in given worlds, and drops it.
  abbrev pub released :
      List (Client.World S ℕ)
      → Result (Response T m.H (ClientRecvBody S ℕ ℕ)) (ClientError Q)
      → List ℕ
  released ws (ok r) = Client.aborts m h3 ws r.body
  released ws (err e) = []
