-- ===== src/Client/Forward/Grammar.antt =====
-- What the task that sends a request's body writes (crates/grpc-quic-client/src/channel.rs),
-- against the operations that the body asks for.
use grpc_quic_rs.Common.{
  ℕ, suc, List, [], ◌∷◌, map, Option, none, Result, ok, err, length, Display, ◌≡◌, refl,
  Option-cases, inl, inr, arith, ap,
}
use grpc_quic_rs.Core.Http.{Frame, bytes, trailers, unknown}
use grpc_quic_rs.Core.Wire.{WireOp, chunk, tail, finish, Network, ops, metrics}
use grpc_quic_rs.Metrics.{Record, sent}
use grpc_quic_rs.Client.Forward.{after_data, forward, report}

-- The operations that send a body: its data in order, and its trailers or else a finish.
abbrev pub wanted : {P H B : Type 0} → List (Result (Frame H) B) → List (WireOp P H)
wanted [] = finish ∷ []
wanted (err e ∷ body) = []
wanted (ok (bytes buf) ∷ body) = chunk buf ∷ wanted body
wanted (ok (trailers h) ∷ body) = tail h ∷ []
wanted (ok unknown ∷ body) = wanted body

-- Whether the body's polls give no error, up to its trailers.
abbrev pub IsSound : {H B : Type 0} → List (Result (Frame H) B) → Type 0
IsSound [] = Unit
IsSound (err e ∷ body) = ⊥
IsSound (ok (bytes buf) ∷ body) = IsSound body
IsSound (ok (trailers h) ∷ body) = Unit
IsSound (ok unknown ∷ body) = IsSound body

abbrev pub succeeded : {P H E : Type 0} → WireOp P H → WireOp P H × Option E
succeeded o = (o, none)

-- The records of the data that was sent.
abbrev pub counted : {P H E : Type 0} → List (WireOp P H × Option E) → List Record
counted [] = []
counted ((chunk buf, none) ∷ rest) = sent "client" (length buf) ∷ counted rest
counted (_ ∷ rest) = counted rest

-- `IsPrefix xs ys`: `ys` begins with `xs`.
pub data IsPrefix {A : Type 0} : List A → List A → Type 0 where
  nothing : (ys : List A) → IsPrefix [] ys
  same : {xs ys : List A} (a : A) → IsPrefix xs ys → IsPrefix (a ∷ xs) (a ∷ ys)

module _ (P : Type 0) {H B E : Type 0} ⦃d : Display E⦄ ⦃b : Display B⦄ (net : Network E) where
  -- If the task reports no error, it has sent all that the body asked for, in order, each
  -- operation succeeded, and the body gave no error.
  pub unreported_is_sent :
      (n : ℕ) (body : List (Result (Frame H) B))
      → (forward {P = P} net n body).reported ≡ none
      → (ops (forward {P = P} net n body).trace ≡ map succeeded (wanted body)) × IsSound body
  unfolding forward after_data report
  unreported_is_sent n [] h = elim (Option-cases (net n)) [
    | inl e ↦ (ground arith, tt)
    | inr (x, e) ↦ absurd (ground arith)
  ]
  unreported_is_sent n (err e ∷ body) h = absurd (cc)
  unreported_is_sent n (ok (bytes buf) ∷ body) h = elim (Option-cases (net n)) [
    | inl e ↦
        let (sent_so, sound) = unreported_is_sent (suc n) body (ground arith) in
        (ground (arith, sent_so), sound)
    | inr (x, e) ↦ absurd (ground arith)
  ]
  unreported_is_sent n (ok (trailers t) ∷ body) h = elim (Option-cases (net n)) [
    | inl e ↦ (ground arith, tt)
    | inr (x, e) ↦ absurd (ground arith)
  ]
  unreported_is_sent n (ok unknown ∷ body) h = unreported_is_sent n body h

  -- Conversely, over a network without failures a body without errors is sent with no report.
  pub sound_is_unreported :
      (n : ℕ) (body : List (Result (Frame H) B))
      → ((k : ℕ) → net k ≡ none)
      → IsSound body
      → (forward {P = P} net n body).reported ≡ none
  unfolding forward after_data report
  sound_is_unreported n [] good h = rw (good n) refl
  sound_is_unreported n (err e ∷ body) good h = absurd h
  sound_is_unreported n (ok (bytes buf) ∷ body) good h =
      rw (good n) (sound_is_unreported (suc n) body good h)
  sound_is_unreported n (ok (trailers t) ∷ body) good h = rw (good n) refl
  sound_is_unreported n (ok unknown ∷ body) good h = sound_is_unreported n body good h

  -- Whatever fails, the operations tried are a beginning of those that the body asks for, and the
  -- bytes recorded as sent are those of the chunks that were.
  pub forward-IsPrefix :
      (n : ℕ) (body : List (Result (Frame H) B))
      → IsPrefix (map (λ o. o.0) (ops (forward {P = P} net n body).trace)) (wanted body)
        × (metrics (forward {P = P} net n body).trace
            ≡ counted (ops (forward {P = P} net n body).trace))
  unfolding forward after_data
  forward-IsPrefix n [] = (same finish (nothing []), refl)
  forward-IsPrefix n (err e ∷ body) = (nothing [], refl)
  forward-IsPrefix n (ok (bytes buf) ∷ body) = elim (Option-cases (net n)) [
    | inl e ↦
        let (rest, counts) = forward-IsPrefix (suc n) body in
        rw e (same (chunk buf) rest, ap (◌∷◌ (sent "client" (length buf))) counts)
    | inr (x, e) ↦ rw e (same (chunk buf) (nothing (wanted body)), refl)
  ]
  forward-IsPrefix n (ok (trailers t) ∷ body) = (same (tail t) (nothing []), refl)
  forward-IsPrefix n (ok unknown ∷ body) = forward-IsPrefix n body
