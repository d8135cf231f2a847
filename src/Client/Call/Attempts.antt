-- ===== src/Client/Call/Attempts.antt =====
-- The attempts of one call (`QuicChannel::call` of crates/grpc-quic-client/src/channel.rs): how
-- many, how far apart, why they fail, and what becomes of the request's body.
use grpc_quic_rs.Common.{
  ℕ, zero, suc, ◌-◌, ◌≤◌, String, List, [], ◌∷◌, Option, none, some, Bool, true, false, ok,
  Duration, Display, to_string, io_other, ◌≡◌, refl, arith, ap, sym, ◌∙◌,
}
use grpc_quic_rs.Core.Body.Client.{ClientRecvBody}
use grpc_quic_rs.Core.Http.{HeaderMap}
use grpc_quic_rs.Errors.{ClientError, stream_io, core_error_display}
use grpc_quic_rs.Client.Retry.{Float, RetryPolicy, backoff_for}
use grpc_quic_rs.Client.Call.Rounds.{
  ResultOf, Round, unconnected, unbuilt, unsent, unanswered, answered, loop, start_of,
  loop_induction,
}
use grpc_quic_rs.Client.Call.{
  Parts, Event, sleep, get_or_connect, spawn_forward, World, Response, then, pause, attempts,
  rpc_future,
}

-- What a sequence of events holds: the attempts, the sleeps, the tasks spawned.
module _ {A M H : Type 0} where
  abbrev pub gets : List (Event A M H) → ℕ
  gets [] = 0
  gets (get_or_connect a ∷ es) = suc (gets es)
  gets (_ ∷ es) = gets es

  abbrev pub sleeps : List (Event A M H) → List Duration
  sleeps [] = []
  sleeps (sleep t ∷ es) = t ∷ sleeps es
  sleeps (_ ∷ es) = sleeps es

  abbrev pub spawns : List (Event A M H) → ℕ
  spawns [] = 0
  spawns (spawn_forward n ∷ es) = suc (spawns es)
  spawns (_ ∷ es) = spawns es

-- `f n, f (n + 1), …`, with `k` members.
abbrev pub from : (ℕ → Duration) → ℕ → ℕ → List Duration
from f n zero = []
from f n (suc k) = f n ∷ from f (suc n) k

module _ {A C H3 M S T E Q : Type 0} ⦃d : Display E⦄ (m : HeaderMap) (f : Float)
    (w : World C H3 M m.H S T E Q) (retry : RetryPolicy f.F) (remote : A) (server_name : String)
    (deadline : Option ℕ) (parts : Parts M m.H) where
  abbrev pub Out : Type 0
  Out = ResultOf m f w retry remote server_name deadline parts

  abbrev run : ℕ → ℕ → Option (ClientError Q) → Out
  run = loop m f w retry remote server_name deadline parts

  abbrev IsRound : (n : ℕ) → (Option (ClientError Q) → Out) → Out → Type 0
  IsRound = Round m f w retry remote server_name deadline parts

  abbrev pub opened : ℕ → Out → Out
  opened n = then (start_of m f w retry remote server_name deadline parts n)

  pub opened_counts :
      (n : ℕ) (o : Out)
      → (gets (opened n o).0 ≡ suc (gets o.0))
        × (spawns (opened n o).0 ≡ spawns o.0)
        × ((opened n o).1 ≡ o.1)
  unfolding pause
  opened_counts zero o = (refl, refl, refl)
  opened_counts (suc n) o = (refl, refl, refl)

  -- The number of attempts is bounded; one task is spawned if there is an answer, else at most one.
  abbrev IsBounded : ℕ → ℕ → Option (ClientError Q) → Out → Type 0
  IsBounded left n last o =
      (gets o.0 ≤ left)
      × (spawns o.0 ≤ 1)
      × ((r : Response T m.H (ClientRecvBody S ℕ ℕ)) → o.1 ≡ ok r → spawns o.0 ≡ 1)

  IsBounded-round :
      (left n : ℕ) (o : Out)
      → IsRound n (run left (suc n)) o
      → ((e : Option (ClientError Q)) → IsBounded left (suc n) e (run left (suc n) e))
      → IsBounded left n none o
  IsBounded-round left n _ (unconnected e p) h = h (some e)
  IsBounded-round left n _ (unbuilt e p) h = (ground arith, ground arith, λ r q. absurd (cc))
  IsBounded-round left n _ (unsent entry e p) h = h (some (stream_io (io_other (to_string e))))
  IsBounded-round left n _ (unanswered recv e p) h =
      (ground arith, ground arith, λ r q. absurd (cc))
  IsBounded-round left n _ (answered entry recv status headers p q) h =
      (ground arith, ground arith, λ r e. refl)

  bounded : (left n : ℕ) (last : Option (ClientError Q)) → IsBounded left n last (run left n last)
  unfolding attempts
  bounded =
      loop_induction m f w retry remote server_name deadline parts IsBounded
        (λ n last. (ground arith, ground arith, λ r q. absurd (cc)))
        (λ left n last o round h.
          let (g, s, e) = IsBounded-round left n o round h in
          let (cg, cs, ce) = opened_counts n o in
          (omega (arith, cg, g), omega (arith, cs, s), λ r q. cs ∙ e r (sym ce ∙ q)))

  -- No call makes more than `max_attempts` attempts, or spawns more than one forwarding task, and it
  -- spawns exactly one if there is a response.
  pub call_bounded :
      (permit : Bool)
      → (gets (rpc_future m f w retry remote server_name deadline parts permit).0
          ≤ retry.max_attempts)
        × (spawns (rpc_future m f w retry remote server_name deadline parts permit).0 ≤ 1)
        × ((r : Response T m.H (ClientRecvBody S ℕ ℕ))
            → (rpc_future m f w retry remote server_name deadline parts permit).1 ≡ ok r
            → spawns (rpc_future m f w retry remote server_name deadline parts permit).0 ≡ 1)
  unfolding rpc_future
  call_bounded false = (ground arith, ground arith, λ r q. absurd (cc))
  call_bounded true = bounded retry.max_attempts 0 none

  -- The sleeps of the attempts from the n-th on.
  abbrev waits : ℕ → ℕ → List Duration
  waits zero k = from (backoff_for f retry) 0 (k - 1)
  waits (suc n) k = from (backoff_for f retry) n k

  abbrev IsSpaced : ℕ → ℕ → Option (ClientError Q) → Out → Type 0
  IsSpaced left n last o = sleeps o.0 ≡ waits n (gets o.0)

  IsSpaced-round :
      (left n : ℕ) (o : Out)
      → IsRound n (run left (suc n)) o
      → ((e : Option (ClientError Q)) → IsSpaced left (suc n) e (run left (suc n) e))
      → sleeps o.0 ≡ from (backoff_for f retry) n (gets o.0)
  IsSpaced-round left n _ (unconnected e p) h = h (some e)
  IsSpaced-round left n _ (unbuilt e p) h = refl
  IsSpaced-round left n _ (unsent entry e p) h = h (some (stream_io (io_other (to_string e))))
  IsSpaced-round left n _ (unanswered recv e p) h = refl
  IsSpaced-round left n _ (answered entry recv status headers p q) h = refl

  spaced_opened :
      (n : ℕ) (o : Out)
      → sleeps o.0 ≡ from (backoff_for f retry) n (gets o.0)
      → sleeps (opened n o).0 ≡ waits n (gets (opened n o).0)
  unfolding pause
  spaced_opened zero o h = h ∙ ap (from (backoff_for f retry) 0) (omega arith)
  spaced_opened (suc n) o h = ap (◌∷◌ (backoff_for f retry n)) h

  IsSpaced-base : (n : ℕ) (last : Option (ClientError Q)) → IsSpaced 0 n last (run 0 n last)
  unfolding attempts
  IsSpaced-base zero last = refl
  IsSpaced-base (suc n) last = refl

  -- There is one sleep less than there are attempts, and the k-th has the policy's k-th length.
  pub call_sleeps :
      sleeps (rpc_future m f w retry remote server_name deadline parts true).0
      ≡ from
          (backoff_for f retry)
          0
          (gets (rpc_future m f w retry remote server_name deadline parts true).0 - 1)
  unfolding rpc_future
  call_sleeps =
      loop_induction m f w retry remote server_name deadline parts IsSpaced IsSpaced-base
        (λ left n last o round h. spaced_opened n o (IsSpaced-round left n o round h))
        retry.max_attempts 0 none
