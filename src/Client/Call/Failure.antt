-- ===== src/Client/Call/Failure.antt =====
-- Why a call fails (`QuicChannel::call` of crates/grpc-quic-client/src/channel.rs).
use grpc_quic_rs.Common.{
  ℕ, zero, suc, ◌+◌, String, Option, none, some, true, err, Display, to_string, io_other, unwrap_or,
  ◌≡◌, refl, inl, inr, arith, ap, sym, ◌∙◌, subst, ◌⊎◌,
}
use grpc_quic_rs.Core.Http.{HeaderMap}
use grpc_quic_rs.Errors.{
  ClientError, retries_exhausted, stream_io, request_build, CoreError, core_error_display,
}
use grpc_quic_rs.Client.Pool.{PoolEntry}
use grpc_quic_rs.Client.Retry.{Float, RetryPolicy}
use grpc_quic_rs.Client.Call.Attempts.{gets, opened_counts}
use grpc_quic_rs.Client.Call.Rounds.{
  ResultOf, Round, unconnected, unbuilt, unsent, unanswered, answered, loop, start_of,
  loop_induction, sent_uri, sent_request,
}
use grpc_quic_rs.Client.Call.{Parts, World, then, attempts, rpc_future}

module _ {A C H3 M S T E Q : Type 0} ⦃d : Display E⦄ (m : HeaderMap) (f : Float)
    (w : World C H3 M m.H S T E Q) (retry : RetryPolicy f.F) (remote : A) (server_name : String)
    (deadline : Option ℕ) (parts : Parts M m.H) where
  abbrev Out : Type 0
  Out = ResultOf m f w retry remote server_name deadline parts

  abbrev run : ℕ → ℕ → Option (ClientError Q) → Out
  run = loop m f w retry remote server_name deadline parts

  abbrev IsRound : (n : ℕ) → (Option (ClientError Q) → Out) → Out → Type 0
  IsRound = Round m f w retry remote server_name deadline parts

  abbrev opened : ℕ → Out → Out
  opened n = then (start_of m f w retry remote server_name deadline parts n)

  -- The causes that end a call at once: the request cannot be built, or there is no answer to it.
  pub data IsFatal (e : ClientError Q) : Type 0 where
    build :
        (x : String)
        → w.build parts.method (sent_uri m f w retry remote server_name deadline parts) ≡ err x
        → e ≡ request_build x
        → IsFatal e
    answer :
        (n : ℕ) (recv : S) (x : E)
        → w.recv_response n recv ≡ err x
        → e ≡ stream_io (io_other (to_string x))
        → IsFatal e

  -- The causes after which there is a next attempt: the n-th one had no connection, or could not
  -- open a stream.
  pub data IsRetried (n : ℕ) (e : ClientError Q) : Type 0 where
    pool : w.pool n ≡ err e → IsRetried n e
    send :
        (entry : PoolEntry C H3) (x : CoreError)
        → w.send n entry.h3 (sent_request m f w retry remote server_name deadline parts) ≡ err x
        → e ≡ stream_io (io_other (to_string x))
        → IsRetried n e

  -- The error of a loop that ran out of attempts.
  abbrev pub IsLast : ℕ → ℕ → Option (ClientError Q) → ClientError Q → Type 0
  IsLast zero n last e =
      e ≡ unwrap_or (retries_exhausted retry.max_attempts "no error captured") last
  IsLast (suc k) n last e = IsRetried (n + k) e

  abbrev IsEnding : ℕ → ℕ → Option (ClientError Q) → Out → Type 0
  IsEnding left n last o =
      (e : ClientError Q) → o.1 ≡ err e → IsFatal e ⊎ ((gets o.0 ≡ left) × IsLast left n last e)

  next_last :
      (left n : ℕ) (x : ClientError Q)
      → IsRetried n x
      → (e : ClientError Q) → IsLast left (suc n) (some x) e
      → IsRetried (n + left) e
  next_last zero n x r e h =
      subst (IsRetried (n + 0)) (sym h) (subst (λ k. IsRetried k x) (omega arith) r)
  next_last (suc k) n x r e h = subst (λ j. IsRetried j e) (omega arith) h

  retried :
      (left n : ℕ) (x : ClientError Q) (o : Out)
      → IsRetried n x
      → IsEnding left (suc n) (some x) o
      → (e : ClientError Q) → o.1 ≡ err e
      → IsFatal e ⊎ ((gets o.0 ≡ left) × IsRetried (n + left) e)
  retried left n x o r h e p = elim (h e p) [
    | inl fatal ↦ inl fatal
    | inr (g, l) ↦ inr (g, next_last left n x r e l)
  ]

  ending_round :
      (left n : ℕ) (o : Out)
      → IsRound n (run left (suc n)) o
      → ((e : Option (ClientError Q)) → IsEnding left (suc n) e (run left (suc n) e))
      → (e : ClientError Q) → o.1 ≡ err e
      → IsFatal e ⊎ ((gets o.0 ≡ left) × IsRetried (n + left) e)
  ending_round left n _ (unconnected x p) h e q =
      retried left n x (run left (suc n) (some x)) (pool p) (h (some x)) e q
  ending_round left n _ (unbuilt x p) h e q = inl (build x p (cc))
  ending_round left n _ (unsent entry x p) h e q =
      let y : ClientError Q = stream_io (io_other (to_string x)) in
      retried left n y (run left (suc n) (some y)) (send entry x p refl) (h (some y)) e q
  ending_round left n _ (unanswered recv x p) h e q = inl (answer n recv x p (cc))
  ending_round left n _ (answered entry recv status headers p s) h e q = absurd (cc)

  ending : (left n : ℕ) (last : Option (ClientError Q)) → IsEnding left n last (run left n last)
  unfolding attempts
  ending =
      loop_induction m f w retry remote server_name deadline parts IsEnding
        (λ n last e p. inr (refl, cc))
        (λ left n last o round h e p.
          let (cg, cs, ce) = opened_counts m f w retry remote server_name deadline parts n o in
          elim (ending_round left n o round h e (sym ce ∙ p)) [
            | inl fatal ↦ inl fatal
            | inr (g, r) ↦ inr (cg ∙ ap suc g, r)
          ])

  -- A call that has its permit fails for one of three reasons: its request cannot be built, or is
  -- not answered once it was sent, at whichever attempt; or all of its attempts were made and the
  -- error is that of the last one, which had no connection or no stream; or the policy allows no
  -- attempt, and the error is `RetriesExhausted`.
  pub call_fails :
      (e : ClientError Q)
      → (rpc_future m f w retry remote server_name deadline parts true).1 ≡ err e
      → IsFatal e
        ⊎ ((gets (rpc_future m f w retry remote server_name deadline parts true).0
              ≡ retry.max_attempts)
            × IsLast retry.max_attempts 0 none e)
  unfolding rpc_future
  call_fails e p = ending retry.max_attempts 0 none e p
