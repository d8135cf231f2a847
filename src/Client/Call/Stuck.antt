-- ===== src/Client/Call/Stuck.antt =====
-- Calls on a pooled connection whose HTTP/3 session takes no request any more
-- (crates/grpc-quic-client/src/channel.rs and pool.rs).
use grpc_quic_rs.Common.{
  ℕ, zero, suc, ◌+◌, String, List, [], ◌∷◌, ◌++◌, All, take, Option, none, some, true, false, ok,
  err, Display, to_string, io_other, ◌≡◌, refl, ap, subst, sym, ◌∙◌, arith,
}
use grpc_quic_rs.Core.Http.{HeaderMap}
use grpc_quic_rs.Errors.{ClientError, CoreError, stream_io, core_error_display}
use grpc_quic_rs.Metrics.{request}
use grpc_quic_rs.Client.Pool.{PoolEntry, Slot, ready, reuse}
use grpc_quic_rs.Client.Pool
use grpc_quic_rs.Client.Pool.System.{System, requested, invalidated}
use grpc_quic_rs.Client.Pool.System.Open.{open-get_or_connect, open-requested, open-invalidated}
use grpc_quic_rs.Client.Retry.{Float, RetryPolicy}
use grpc_quic_rs.Client.Call.Attempts.{gets}
use grpc_quic_rs.Client.Call.{
  Parts, Event, metric, get_or_connect, invalidate, send_request, World, then, pause, attempts,
  on_entry, on_built, on_stream, h3_request, rpc_future, Outcome, H3Request,
}

module _ {A C H Q M P : Type 0} (eq : Discrete A) where
  -- What an event of a call does to the pool.
  abbrev pub effect : Event A M P → System A C H Q → System A C H Q
  effect (get_or_connect a) s = requested eq s a
  effect (invalidate a) s = invalidated eq s a
  effect _ s = s

  abbrev pub replay : List (Event A M P) → System A C H Q → System A C H Q
  replay [] s = s
  replay (e ∷ es) s = replay es (effect e s)

  replay_still :
      (s : System A C H Q) (es : List (Event A M P)) (j : ℕ)
      → All (λ e. effect e s ≡ s) es
      → replay (take j es) s ≡ s
  replay_still s es zero h = refl
  replay_still s [] (suc j) h = refl
  replay_still s (e ∷ es) (suc j) (h, hs) = ap (replay (take j es)) h ∙ replay_still s es j hs

module _ {A C H3 M S T E Q : Type 0} ⦃d : Display E⦄ (m : HeaderMap) (f : Float)
    (w : World C H3 M m.H S T E Q) (retry : RetryPolicy f.F) (remote : A) (server_name : String)
    (deadline : Option ℕ) (parts : Parts M m.H) (eq : Discrete A) (s : System A C H3 Q)
    (entry : PoolEntry C H3) where
  open m use {H}

  abbrev req : H3Request M H
  req = h3_request m f w retry remote server_name deadline parts

  abbrev Out : Type 0
  Out = Outcome m f w retry remote server_name deadline parts

  abbrev loop : ℕ → ℕ → Option (ClientError Q) → Out
  loop = attempts m f w retry remote server_name deadline parts

  -- Every attempt is answered with `entry`, and h3 refuses its request.
  pub record Refuses (e : ℕ → CoreError) : Type 0 where
    pub answers : (n : ℕ) → w.pool n ≡ ok entry
    pub builds : w.build parts.method req.uri ≡ ok tt
    pub refuses : (n : ℕ) → w.send n entry.h3 req ≡ err (e n)

  abbrev before : ℕ → List (Event A M H)
  before n = pause m f w retry remote server_name deadline parts n ++ get_or_connect remote ∷ []

  abbrev refused : CoreError → ClientError Q
  refused x = stream_io (io_other (to_string x))

  -- The events of an attempt whose request is refused, before what comes next.
  abbrev attempted : ℕ → Out → Out
  attempted n next = then (before n) (
      then (metric (request "client" parts.path) ∷ [])
        (then (send_request req ∷ []) (then (invalidate remote ∷ []) next)))

  loop_over : (n : ℕ) (x : ClientError Q) → loop zero n (some x) ≡ ([], err x)
  unfolding attempts
  loop_over n x = refl

  attempt_refused :
      (e : ℕ → CoreError)
      → Refuses e
      → (left n : ℕ) (last : Option (ClientError Q))
      → loop (suc left) n last ≡ attempted n (loop left (suc n) (some (refused (e n))))
  unfolding attempts on_entry on_built on_stream
  attempt_refused e r left n last = rw (r.answers n, r.builds, r.refuses n) refl

  abbrev Still : Event A M H → Type 0
  Still ev = effect {C = C} {H = H3} {Q = Q} eq ev s ≡ s

  module _ (at : s.inner remote ≡ some (ready entry)) (alive : s.is_closed entry.quic ≡ false) where
    attempted_lem :
        (n : ℕ) (next : Out)
        → All Still next.0
        → (gets (attempted n next).0 ≡ suc (gets next.0)) × All Still (attempted n next).0
    unfolding pause
    attempted_lem zero next h = (
      refl,
      (
        open-requested eq s remote entry at alive,
        (refl, (refl, (open-invalidated eq s remote entry at alive, h))),
      ),
    )
    attempted_lem (suc n) next h = (
      refl,
      (
        refl,
        (
          refl,
          (
            open-requested eq s remote entry at alive,
            (refl, (refl, (open-invalidated eq s remote entry at alive, h))),
          ),
        ),
      ),
    )

    loop-refused :
        (e : ℕ → CoreError)
        → Refuses e
        → (left n : ℕ) (last : Option (ClientError Q))
        → ((loop (suc left) n last).1 ≡ err (refused (e (left + n))))
          × (gets (loop (suc left) n last).0 ≡ suc left)
          × All Still (loop (suc left) n last).0
    loop-refused e r zero n last =
        let start : n ≡ 0 + n = omega arith in
        let next = loop_over (suc n) (refused (e n)) in
        let (g, a) = attempted_lem n ([], err (refused (e n))) tt in
        rw (attempt_refused e r zero n last, next) (ap (λ i. err (refused (e i))) start, g, a)
    loop-refused e r (suc left) n last =
        let (res, count, still) = loop-refused e r left (suc n) (some (refused (e n))) in
        let (g, a) = attempted_lem n (loop (suc left) (suc n) (some (refused (e n)))) still in
        let same : left + suc n ≡ suc left + n = omega arith in
        rw (attempt_refused e r (suc left) n last)
          (res ∙ ap (λ k. err (refused (e k))) same, g ∙ ap suc count, a)

    all_refused :
        (e : ℕ → CoreError) (k attempts : ℕ)
        → Refuses e
        → attempts ≡ suc k
        → ((loop attempts 0 none).1 ≡ err (refused (e (k + 0))))
          × (gets (loop attempts 0 none).0 ≡ suc k)
          × All Still (loop attempts 0 none).0
    all_refused e k attempts r most =
        subst
          (λ n.
            ((loop n 0 none).1 ≡ err (refused (e (k + 0))))
            × (gets (loop n 0 none).0 ≡ suc k)
            × All Still (loop n 0 none).0)
          (sym most) (loop-refused e r k 0 none)

    -- Suppose that the pool has an entry for the address whose QUIC connection is open and stays
    -- so, that no one else uses the pool, and that every attempt of the call is answered with that
    -- entry, on whose session h3 refuses every request. Then the call makes all its attempts, and
    -- fails with the last refusal; at each moment of it the pool is as before, and answers the next
    -- attempt with the same entry: no attempt ever connects again.
    pub refused_to_the_end :
        (e : ℕ → CoreError) (k : ℕ)
        → Refuses e
        → retry.max_attempts ≡ suc k
        → let o = rpc_future m f w retry remote server_name deadline parts true in
          (o.1 ≡ err (refused (e k)))
          × (gets o.0 ≡ suc k)
          × ((j : ℕ) → replay eq (take j o.0) s ≡ s)
          × (Pool.get_or_connect eq s.is_closed remote s.next s.inner ≡ (s.inner, reuse entry))
    unfolding rpc_future
    refused_to_the_end e k r most =
        let (res, count, still) = all_refused e k retry.max_attempts r most in
        let zeros : k + 0 ≡ k = omega arith in
        (
          res ∙ ap (λ i. err (refused (e i))) zeros,
          count,
          λ j. replay_still eq s _ j still,
          open-get_or_connect eq s remote entry at alive,
        )
