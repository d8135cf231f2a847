-- ===== src/Client/Call/Sent.antt =====
-- What a call sends, and how long it sleeps (`QuicChannel::call` of
-- crates/grpc-quic-client/src/channel.rs, and the delays of retry.rs).
use grpc_quic_rs.Common.{
  Bytes, ℕ, zero, suc, ◌+◌, ◌-◌, ◌*◌, ◌≤◌, String, push_str, List, [], ◌∷◌, Option, none, some,
  Bool, true, false, codes, Duration, Display, to_string, io_other, unwrap_or, ◌≡◌, ◌≢◌, refl,
  arith, ap,
}
use grpc_quic_rs.Core.Http.{HeaderMap, header_name}
use grpc_quic_rs.Errors.{ClientError, stream_io, core_error_display}
use grpc_quic_rs.Client.Retry.{Float, RetryPolicy, backoff_for}
use grpc_quic_rs.Client.Retry.Backoff.{backoff_for-le-max_backoff}
use grpc_quic_rs.Client.Call.Attempts.{gets, sleeps, from, call_bounded, call_sleeps}
use grpc_quic_rs.Client.Call.Carried.{call_headers_lem}
use grpc_quic_rs.Client.Call.Role.{sent}
use grpc_quic_rs.Client.Call.Rounds.{
  ResultOf, Round, unconnected, unbuilt, unsent, unanswered, answered, loop, start_of, sent_request,
  loop_induction,
}
use grpc_quic_rs.Client.Call.{
  Parts, H3Request, World, then, pause, h3_request, attempts, rpc_future,
}

abbrev pub total : List Duration → Duration
total [] = 0
total (t ∷ ts) = t + total ts

total-from :
    (g : ℕ → Duration) (cap : Duration) (n k : ℕ)
    → ((i : ℕ) → g i ≤ cap)
    → total (from g n k) ≤ k * cap
total-from g cap n zero h = ground arith
total-from g cap n (suc k) h =
    let rest = total-from g cap (suc n) k h in let one = h n in ground arith

mul_grows : (a b cap : ℕ) → a ≤ b → a * cap ≤ b * cap
mul_grows zero b cap h = ground arith
mul_grows (suc a) zero cap h = absurd (omega (arith, h))
mul_grows (suc a) (suc b) cap h = let rest = mul_grows a b cap (omega (arith, h)) in ground arith

-- `k` copies.
abbrev pub repeat : {X : Type 0} → ℕ → X → List X
repeat zero x = []
repeat (suc k) x = x ∷ repeat k x

module _ {A C H3 M S T E Q : Type 0} ⦃d : Display E⦄ (m : HeaderMap) (f : Float)
    (w : World C H3 M m.H S T E Q) (retry : RetryPolicy f.F) (remote : A) (server_name : String)
    (deadline : Option ℕ) (parts : Parts M m.H) where
  abbrev Out : Type 0
  Out = ResultOf m f w retry remote server_name deadline parts

  abbrev run : ℕ → ℕ → Option (ClientError Q) → Out
  run = loop m f w retry remote server_name deadline parts

  abbrev IsRound : (n : ℕ) → (Option (ClientError Q) → Out) → Out → Type 0
  IsRound = Round m f w retry remote server_name deadline parts

  abbrev opened : ℕ → Out → Out
  opened n = then (start_of m f w retry remote server_name deadline parts n)

  abbrev request : H3Request M m.H
  request = sent_request m f w retry remote server_name deadline parts

  -- The requests of a run are copies of one, no more than its attempts.
  abbrev IsRepeated : ℕ → ℕ → Option (ClientError Q) → Out → Type 0
  IsRepeated left n last o = (k : ℕ) × (k ≤ gets o.0) × (sent o.0 ≡ repeat k request)

  -- The same, for an attempt without its start.
  abbrev IsOneMore : Out → Type 0
  IsOneMore o = (k : ℕ) × (k ≤ suc (gets o.0)) × (sent o.0 ≡ repeat k request)

  IsRepeated-round :
      (left n : ℕ) (o : Out)
      → IsRound n (run left (suc n)) o
      → ((e : Option (ClientError Q)) → IsRepeated left (suc n) e (run left (suc n) e))
      → IsOneMore o
  IsRepeated-round left n _ (unconnected e p) h =
      let (k, le, same) = h (some e) in (k, omega (arith, le), same)
  IsRepeated-round left n _ (unbuilt e p) h = (0, omega arith, refl)
  IsRepeated-round left n _ (unsent entry e p) h =
      let (k, le, same) = h (some (stream_io (io_other (to_string e)))) in
      (suc k, omega (arith, le), ap (◌∷◌ request) same)
  IsRepeated-round left n _ (unanswered recv e p) h = (1, omega arith, refl)
  IsRepeated-round left n _ (answered entry recv status headers p q) h = (1, omega arith, refl)

  IsRepeated-opened :
      (left n : ℕ) (last : Option (ClientError Q)) (o : Out)
      → IsOneMore o
      → IsRepeated left n last (opened n o)
  unfolding pause
  IsRepeated-opened left zero last o h = h
  IsRepeated-opened left (suc n) last o h = h

  repeated : (left n : ℕ) (last : Option (ClientError Q)) → IsRepeated left n last (run left n last)
  unfolding attempts
  repeated =
      loop_induction m f w retry remote server_name deadline parts IsRepeated
        (λ n last. (0, omega arith, refl))
        (λ left n last o round h.
          IsRepeated-opened (suc left) n last o (IsRepeated-round left n o round h))

  -- The requests that a call sends are copies of one, no more than its attempts. That has the
  -- caller's method and, without an authority, the channel's server name before the caller's path;
  -- its one content type is that of gRPC, its one `te` says that it takes trailers, and under every
  -- other name, which no case tells apart, it has all the values of the caller.
  pub call_sends :
      (permit : Bool)
      → let events = (rpc_future m f w retry remote server_name deadline parts permit).0 in
        (req : H3Request M m.H) × (k : ℕ) × (sent events ≡ repeat k req)
        × (k ≤ gets events)
        × (req.method ≡ parts.method)
        × (req.uri
            ≡ push_str "https://" (push_str (unwrap_or server_name parts.authority) parts.path))
        × (m.get_all req.headers (header_name "content-type") ≡ codes "application/grpc" ∷ [])
        × (m.get_all req.headers (header_name "te") ≡ codes "trailers" ∷ [])
        × ((name : Bytes)
            → header_name "content-type" ≢ name
            → header_name "te" ≢ name
            → m.get_all req.headers name ≡ m.get_all parts.headers name)
  unfolding rpc_future h3_request
  call_sends false =
      let (content, te, others) = call_headers_lem m parts.headers in
      (request, 0, refl, omega arith, refl, refl, content, te, others)
  call_sends true =
      let (k, le, same) = repeated retry.max_attempts 0 none in
      let (content, te, others) = call_headers_lem m parts.headers in
      (request, k, same, le, refl, refl, content, te, others)

  -- Whatever the multiplier of the policy and the arithmetic of `f64`, a call never sleeps longer
  -- than the policy's cap for each attempt but one; if at most one is allowed, it does not sleep.
  pub call_sleeps_bounded :
      (permit : Bool)
      → total (sleeps (rpc_future m f w retry remote server_name deadline parts permit).0)
        ≤ (retry.max_attempts - 1) * retry.max_backoff
  unfolding rpc_future
  call_sleeps_bounded false = omega arith
  call_sleeps_bounded true =
      let o = loop m f w retry remote server_name deadline parts retry.max_attempts 0 none in
      let (few, spawn, one_if) = call_bounded m f w retry remote server_name deadline parts true in
      let one =
        total-from (backoff_for f retry) retry.max_backoff 0 (gets o.0 - 1)
          (backoff_for-le-max_backoff f retry) in
      let more =
        mul_grows (gets o.0 - 1) (retry.max_attempts - 1) retry.max_backoff (omega (arith, few)) in
      rw (call_sleeps m f w retry remote server_name deadline parts) (omega (arith, one, more))
