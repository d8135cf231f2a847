-- ===== src/Core/Body/Client/Transcript.antt =====
-- A response's body gives what the peer sends (crates/grpc-quic-core/src/body.rs).
use grpc_quic_rs.Common.{
  ℕ, suc, List, [], ◌∷◌, Option, none, some, Bool, true, false, ok, pending, ready, Display, Bytes,
  All, ◌≡◌, ◌<◌, refl, arith, length, ap, ◌∙◌, ◌⊎◌, inl, inr,
}
use grpc_quic_rs.Core.Http.{HeaderMap, bytes}
use grpc_quic_rs.Core.Body.{RecvStream}
use grpc_quic_rs.Core.Body.Peer.{Peer, peer_stream, transcript}
use grpc_quic_rs.Core.Body.Client.{
  ClientRecvBody, new, World, poll_frame, poll_in, poll_open, poll_err, on_rx, poll_stream, polls,
}

-- Before the deadline, if there is one, without an error from the sending task, which may be at work
-- or have ended, and with nothing changed on the stream.
pub record IsCalm {S R : Type 0} (rx : R) (deadline : Option ℕ) (w : World S R) : Type 0 where
  pub early : (dl : ℕ) → deadline ≡ some dl → w.now < dl
  pub sending : (w.poll_rx rx ≡ pending) ⊎ (w.poll_rx rx ≡ ready none)
  pub still : (s : S) → w.arrive s ≡ s

-- The receiver of a body, if that has not seen the sending task end.
abbrev receiver : {R : Type 0} → R → Bool → Option R
receiver rx true = some rx
receiver rx false = none

module _ {S R T E : Type 0} ⦃d : Display E⦄ (m : HeaderMap) (h3 : RecvStream S m.H E) (rx : R)
    (w : World S R) where
  abbrev receiving : Bool → ClientRecvBody S R T → ClientRecvBody S R T
  receiving alive b = record b { err_rx = receiver rx alive }

  poll_err_calm :
      (alive : Bool) (b : ClientRecvBody S R T) (deadline : Option ℕ)
      → IsCalm rx deadline w
      → (left : Bool) × (poll_err m h3 w (receiving alive b) (receiving alive b).err_rx
          ≡ poll_stream m h3 (receiving left b))
  unfolding poll_err on_rx
  poll_err_calm false b deadline calm = (false, refl)
  poll_err_calm true b deadline calm = elim calm.sending [
    | inl working ↦ (true, ap (on_rx m h3 (receiving true b)) working)
    | inr ended ↦ (false, ap (on_rx m h3 (receiving true b)) ended)
  ]

  poll_open_calm :
      (b : ClientRecvBody S R T) (deadline : Option ℕ)
      → IsCalm rx deadline w
      → poll_open m h3 w b deadline ≡ poll_err m h3 w b b.err_rx
  unfolding poll_open
  poll_open_calm b none calm = refl
  poll_open_calm b (some dl) calm = let early = calm.early dl refl in ground arith

  poll_frame_open :
      (b : ClientRecvBody S R T)
      → b.is_closed ≡ false
      → poll_frame m h3 w b ≡ poll_open m h3 w b b.deadline
  unfolding poll_frame
  poll_frame_open b opened = ground arith

  -- In a calm world only the stream counts.
  calm_poll :
      (alive : Bool) (b : ClientRecvBody S R T)
      → IsCalm rx b.deadline w
      → b.is_closed ≡ false
      → (left : Bool) × (poll_in m h3 w (receiving alive b) ≡ poll_stream m h3 (receiving left b))
  unfolding poll_frame
  calm_poll alive b calm opened =
      let (left, e) = poll_err_calm alive b b.deadline calm in
      (
        left,
        ap (λ s. poll_frame m h3 w (record (receiving alive b) { stream = s }))
              (calm.still b.stream)
            ∙ poll_frame_open (receiving alive b) opened
            ∙ poll_open_calm (receiving alive b) b.deadline calm
            ∙ e,
      )

module _ {R T : Type 0} (E : Type 0) ⦃d : Display E⦄ (m : HeaderMap) (rx : R) (t : T)
    (deadline : Option ℕ) where
  open m use {H}

  abbrev opened : Bool → List (Option Bytes) → Option H → ClientRecvBody (Peer H) R T
  opened alive chunks last =
      new (record { chunks = chunks; last = last }) (receiver rx alive) (some t) deadline

  transcript_from :
      (alive : Bool) (ws : List (World (Peer H) R)) (chunks : List (Option Bytes)) (last : Option H)
      → length ws ≡ suc (length chunks)
      → All (IsCalm rx deadline) ws
      → polls m (peer_stream {E = E}) ws (opened alive chunks last) ≡ transcript chunks last
  unfolding polls poll_stream peer_stream
  transcript_from alive [] chunks last n calm = absurd (omega arith)
  transcript_from alive (w ∷ v ∷ ws) [] last n calm = absurd (omega arith)
  transcript_from alive (w ∷ []) [] none n (calm, _) =
      let (left, e) =
        calm_poll m (peer_stream {E = E}) rx w alive (opened true [] none) calm refl in
      ap (λ p. p.out ∷ []) e
  transcript_from alive (w ∷ []) [] (some h) n (calm, _) =
      let (left, e) =
        calm_poll m (peer_stream {E = E}) rx w alive (opened true [] (some h)) calm refl in
      ap (λ p. p.out ∷ []) e
  transcript_from alive (w ∷ ws) (none ∷ rest) last n (calm, calms) =
      let (left, e) =
        calm_poll m (peer_stream {E = E}) rx w alive (opened true (none ∷ rest) last) calm refl in
      ap (λ p. p.out ∷ polls m (peer_stream {E = E}) ws p.body) e
      ∙ ap (◌∷◌ pending) (transcript_from left ws rest last (omega arith) calms)
  transcript_from alive (w ∷ ws) (some c ∷ rest) last n (calm, calms) =
      let (left, e) =
        calm_poll m (peer_stream {E = E}) rx w alive (opened true (some c ∷ rest) last) calm refl in
      ap (λ p. p.out ∷ polls m (peer_stream {E = E}) ws p.body) e
      ∙ ap (◌∷◌ (ready (some (ok (bytes c)))))
          (transcript_from left ws rest last (omega arith) calms)

  -- Before its deadline, if it has one, and without an error from the sending task, a new body over
  -- the stream of a peer gives the peer's chunks in order and unchanged, `pending` where nothing has
  -- arrived, and then the trailers, or the end if there are none: one answer for each poll.
  pub response-transcript :
      (ws : List (World (Peer H) R)) (chunks : List (Option Bytes)) (last : Option H)
      → length ws ≡ suc (length chunks)
      → All (IsCalm rx deadline) ws
      → polls m
          (peer_stream {E = E})
          ws
          (new {T = T} (record { chunks = chunks; last = last }) (some rx) (some t) deadline)
        ≡ transcript chunks last
  response-transcript = transcript_from true
