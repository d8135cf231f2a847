-- ===== src/Client/Call/Pace.antt =====
-- In which order a call asks the pool and sleeps (`QuicChannel::call` of
-- crates/grpc-quic-client/src/channel.rs).
use grpc_quic_rs.Common.{
  ℕ, zero, suc, String, List, [], ◌∷◌, Option, none, some, Bool, true, false, Duration, Display,
  to_string, io_other, ◌≡◌, refl, ap,
}
use grpc_quic_rs.Core.Http.{HeaderMap}
use grpc_quic_rs.Errors.{ClientError, stream_io, core_error_display}
use grpc_quic_rs.Client.Retry.{Float, RetryPolicy, backoff_for}
use grpc_quic_rs.Client.Call.Rounds.{
  ResultOf, Round, unconnected, unbuilt, unsent, unanswered, answered, loop, loop_induction,
}
use grpc_quic_rs.Client.Call.Attempts.{gets, opened}
use grpc_quic_rs.Client.Call.{
  Parts, Event, sleep, get_or_connect, World, pause, attempts, rpc_future,
}

-- An attempt begins, with its question to the pool, or the call sleeps.
pub data Beat : Type 0 where
  ask : Beat
  rest : Duration → Beat

abbrev pub beats : {A M H : Type 0} → List (Event A M H) → List Beat
beats [] = []
beats (get_or_connect a ∷ es) = ask ∷ beats es
beats (sleep t ∷ es) = rest t ∷ beats es
beats (_ ∷ es) = beats es

-- `k` attempts that follow another one: before each a sleep, whose lengths are `f n, f (n + 1), …`.
abbrev pub more : (ℕ → Duration) → ℕ → ℕ → List Beat
more f n zero = []
more f n (suc k) = rest (f n) ∷ ask ∷ more f (suc n) k

-- `k` attempts, the first of which begins at once.
abbrev pub paced : (ℕ → Duration) → ℕ → List Beat
paced f zero = []
paced f (suc k) = ask ∷ more f 0 k

module _ {A C H3 M S T E Q : Type 0} ⦃d : Display E⦄ (m : HeaderMap) (f : Float)
    (w : World C H3 M m.H S T E Q) (retry : RetryPolicy f.F) (remote : A) (server_name : String)
    (deadline : Option ℕ) (parts : Parts M m.H) where
  abbrev Out : Type 0
  Out = ResultOf m f w retry remote server_name deadline parts

  abbrev run : ℕ → ℕ → Option (ClientError Q) → Out
  run = loop m f w retry remote server_name deadline parts

  abbrev IsRound : (n : ℕ) → (Option (ClientError Q) → Out) → Out → Type 0
  IsRound = Round m f w retry remote server_name deadline parts

  -- The beats of the attempts from the n-th on.
  abbrev paced_from : ℕ → ℕ → List Beat
  paced_from zero k = paced (backoff_for f retry) k
  paced_from (suc n) k = more (backoff_for f retry) n k

  abbrev IsPaced : ℕ → ℕ → Option (ClientError Q) → Out → Type 0
  IsPaced left n last o = beats o.0 ≡ paced_from n (gets o.0)

  IsPaced-round :
      (left n : ℕ) (o : Out)
      → IsRound n (run left (suc n)) o
      → ((e : Option (ClientError Q)) → IsPaced left (suc n) e (run left (suc n) e))
      → beats o.0 ≡ more (backoff_for f retry) n (gets o.0)
  IsPaced-round left n _ (unconnected e p) h = h (some e)
  IsPaced-round left n _ (unbuilt e p) h = refl
  IsPaced-round left n _ (unsent entry e p) h = h (some (stream_io (io_other (to_string e))))
  IsPaced-round left n _ (unanswered recv e p) h = refl
  IsPaced-round left n _ (answered entry recv status headers p q) h = refl

  paced_opened :
      (n : ℕ) (o : Out)
      → beats o.0 ≡ more (backoff_for f retry) n (gets o.0)
      → beats (opened m f w retry remote server_name deadline parts n o).0
        ≡ paced_from n (gets (opened m f w retry remote server_name deadline parts n o).0)
  unfolding pause
  paced_opened zero o h = ap (◌∷◌ ask) h
  paced_opened (suc n) o h = ap (λ bs. rest (backoff_for f retry n) ∷ ask ∷ bs) h

  IsPaced-base : (n : ℕ) (last : Option (ClientError Q)) → IsPaced 0 n last (run 0 n last)
  unfolding attempts
  IsPaced-base zero last = refl
  IsPaced-base (suc n) last = refl

  -- The first attempt of a call asks the pool at once, and each further one sleeps just before it
  -- asks: questions and sleeps take turns, from the first question to the last, and the k-th sleep
  -- has the policy's k-th length.
  pub call_paces :
      (permit : Bool)
      → let events = (rpc_future m f w retry remote server_name deadline parts permit).0 in
        beats events ≡ paced (backoff_for f retry) (gets events)
  unfolding rpc_future
  call_paces false = refl
  call_paces true =
      loop_induction m f w retry remote server_name deadline parts IsPaced IsPaced-base
        (λ left n last o round h. paced_opened n o (IsPaced-round left n o round h))
        retry.max_attempts 0 none
