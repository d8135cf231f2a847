-- ===== src/Core/Body/Client.antt =====
-- `ClientRecvBody` of crates/grpc-quic-core/src/body.rs: the body of a response, with the call's
-- deadline, the errors of the task that sends the request, and that task's handle.
pub mod Order
pub mod Abort
pub mod Deadline
pub mod Transcript
use grpc_quic_rs.Common.{
  ℕ, zero, suc, List, [], ◌∷◌, ◌++◌, Bool, true, false, Option, none, some, Result, ok, err, Poll,
  pending, ready, Display, Bytes, codes, leb,
}
use grpc_quic_rs.Core.Http.{HeaderMap, Frame, bytes, trailers}
use grpc_quic_rs.Core.Body.{RecvStream, FramePoll}
use grpc_quic_rs.Errors.{CoreError, core_error_from_stream}

-- `R` is a oneshot receiver and `T` an abort handle. The timer is the instant at which it fires.
pub record ClientRecvBody (S R T : Type 0) : Type 0 where
  pub stream : S
  pub data_done : Bool
  pub trailers_done : Bool
  pub is_closed : Bool
  pub err_rx : Option R
  pub abort_handle : Option T
  pub deadline : Option ℕ

-- `ClientRecvBody::new`
abbrev pub new : {S R T : Type 0} → S → Option R → Option T → Option ℕ → ClientRecvBody S R T
new stream err_rx abort_handle deadline = record {
  stream = stream;
  data_done = false;
  trailers_done = false;
  is_closed = false;
  err_rx = err_rx;
  abort_handle = abort_handle;
  deadline = deadline;
}

-- The world at one poll: the time, the state of a oneshot channel (an error, or `none` where the
-- sender is gone), and what has arrived on the stream since the last poll.
pub record World (S R : Type 0) : Type 0 where
  pub now : ℕ
  pub poll_rx : R → Poll (Option CoreError)
  pub arrive : S → S

-- What a poll returns, the body after it, and the tasks that it has aborted.
pub record Polled (S R T H : Type 0) : Type 0 where
  pub out : FramePoll H
  pub body : ClientRecvBody S R T
  pub aborted : List T

-- `handle.take()` and `abort()`.
abbrev pub taken : {T : Type 0} → Option T → List T
taken none = []
taken (some t) = t ∷ []

-- `AbortOnDrop::drop`, when the body is dropped.
pub drop_body : {S R T : Type 0} → ClientRecvBody S R T → List T
drop_body this = taken this.abort_handle

module _ (m : HeaderMap) where
  open m use {H, insert}

  -- The trailers of a call that has passed its deadline.
  pub deadline_trailers : H
  deadline_trailers =
      insert (insert m.new "grpc-status" (codes "4")) "grpc-message" (codes "deadline exceeded")

module _ {S R T E : Type 0} ⦃d : Display E⦄ (m : HeaderMap) (h3 : RecvStream S m.H E) where
  open m use {H}

  answer : FramePoll H → ClientRecvBody S R T → Polled S R T H
  answer out this = record { out = out; body = this; aborted = [] }

  on_trailers : ClientRecvBody S R T → Poll (Result (Option H) E) × S → Polled S R T H
  unfolding answer
  on_trailers this (ready (ok (some h)), s) =
      answer (ready (some (ok (trailers h)))) (record this { stream = s; trailers_done = true })
  on_trailers this (ready (ok none), s) =
      answer (ready none) (record this { stream = s; trailers_done = true })
  on_trailers this (ready (err e), s) =
      answer (ready (some (err (core_error_from_stream e))))
        (record this { stream = s; trailers_done = true })
  on_trailers this (pending, s) = answer pending (record this { stream = s })

  poll_trailers : ClientRecvBody S R T → Polled S R T H
  unfolding on_trailers
  poll_trailers this = elim this.trailers_done [
    | false ↦ on_trailers this (h3.poll_recv_trailers this.stream)
    | true ↦ answer (ready none) this
  ]

  on_data : ClientRecvBody S R T → Poll (Result (Option Bytes) E) × S → Polled S R T H
  unfolding poll_trailers
  on_data this (ready (ok (some buf)), s) =
      answer (ready (some (ok (bytes buf)))) (record this { stream = s })
  on_data this (ready (ok none), s) = poll_trailers (record this { stream = s; data_done = true })
  on_data this (ready (err e), s) =
      answer (ready (some (err (core_error_from_stream e)))) (record this { stream = s })
  on_data this (pending, s) = answer pending (record this { stream = s })

  -- From `if !*this.data_done` on.
  poll_stream : ClientRecvBody S R T → Polled S R T H
  unfolding on_data
  poll_stream this = elim this.data_done [
    | false ↦ on_data this (h3.poll_recv_data this.stream)
    | true ↦ poll_trailers this
  ]

  -- The poll of the receiver: an error is passed on once, and a lost sender is forgotten.
  on_rx : ClientRecvBody S R T → Poll (Option CoreError) → Polled S R T H
  unfolding poll_stream
  on_rx this (ready (some e)) = answer (ready (some (err e))) (record this { err_rx = none })
  on_rx this (ready none) = poll_stream (record this { err_rx = none })
  on_rx this pending = poll_stream this

  poll_err : World S R → ClientRecvBody S R T → Option R → Polled S R T H
  unfolding on_rx
  poll_err w this none = poll_stream this
  poll_err w this (some rx) = on_rx this (w.poll_rx rx)

  -- The deadline has passed.
  expire : ClientRecvBody S R T → Polled S R T H
  expire this = record {
    out = elim this.trailers_done [
      | false ↦ ready (some (ok (trailers (deadline_trailers m))))
      | true ↦ ready none
    ];
    body = record this { is_closed = true; abort_handle = none; trailers_done = true };
    aborted = taken this.abort_handle;
  }

  poll_open : World S R → ClientRecvBody S R T → Option ℕ → Polled S R T H
  unfolding poll_err expire
  poll_open w this none = poll_err w this this.err_rx
  poll_open w this (some deadline) = elim (leb deadline w.now) [
    | true ↦ expire this
    | false ↦ poll_err w this this.err_rx
  ]

  unfoldable pub poll_frame : World S R → ClientRecvBody S R T → Polled S R T H
  unfolding poll_open
  poll_frame w this = elim this.is_closed [
    | true ↦ answer (ready none) this
    | false ↦ poll_open w this this.deadline
  ]

  -- A poll after what has arrived.
  abbrev pub poll_in : World S R → ClientRecvBody S R T → Polled S R T H
  poll_in w this = poll_frame w (record this { stream = w.arrive this.stream })

  -- The outputs of polls in given worlds, and the body after them.
  unfoldable pub polls : List (World S R) → ClientRecvBody S R T → List (FramePoll H)
  polls [] this = []
  polls (w ∷ ws) this = (poll_in w this).out ∷ polls ws (poll_in w this).body

  -- The tasks aborted by polls in given worlds, and by the drop of the body after them.
  pub aborts : List (World S R) → ClientRecvBody S R T → List T
  unfolding drop_body
  aborts [] this = drop_body this
  aborts (w ∷ ws) this = (poll_in w this).aborted ++ aborts ws (poll_in w this).body
