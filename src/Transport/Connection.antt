-- ===== src/Transport/Connection.antt =====
-- crates/grpc-quic-transport/src/connection.rs: a QUIC connection. quinn's connection is a
-- parameter, as its operations answer at one time.
use grpc_quic_rs.Common.{
  ℕ, Bytes, Option, none, some, Bool, true, false, Result, ok, err, map_err, Display, to_string,
  string_display,
}
use grpc_quic_rs.Errors.{TransportError, stream, connection}

-- `quinn::ConnectionError`: the end by the own side, and what else there is.
pub data ConnectionError (Q : Type 0) : Type 0 where
  locally_closed : ConnectionError Q
  remote : Q → ConnectionError Q

-- quinn displays `LocallyClosed` as "closed".
instance abbrev pub connection_error_display :
    {Q : Type 0} ⦃d : Display Q⦄ → Display (ConnectionError Q)
connection_error_display = record {
  display = λ e. elim e [ locally_closed ↦ "closed" | remote q ↦ to_string q ];
}

-- `quinn::Connection`: what it answers now, and its state after a close. `P` is a pair of streams.
pub record Quinn (C A P Q : Type 0) : Type 0 where
  pub open_bi : C → Result P (ConnectionError Q)
  pub accept_bi : C → Result P (ConnectionError Q)
  pub remote_address : C → A
  pub stable_id : C → ℕ
  pub close : C → ℕ → Bytes → C
  pub close_reason : C → Option (ConnectionError Q)

module _ {C A P Q : Type 0} ⦃d : Display Q⦄ (quinn : Quinn C A P Q) where
  abbrev pub open_bi : C → Result P (TransportError (ConnectionError Q))
  open_bi inner = map_err (λ e. stream (to_string e)) (quinn.open_bi inner)

  accepted : Result P (ConnectionError Q) → Option (Result P (TransportError (ConnectionError Q)))
  accepted (ok pair) = some (ok pair)
  accepted (err locally_closed) = none
  accepted (err (remote q)) = some (err (connection (remote q)))

  abbrev pub accept_bi : C → Option (Result P (TransportError (ConnectionError Q)))
  unfolding accepted
  accept_bi inner = accepted (quinn.accept_bi inner)

  abbrev pub is_closed : C → Bool
  is_closed inner = elim (quinn.close_reason inner) [ none ↦ false | some e ↦ true ]

  abbrev pub close : C → ℕ → Bytes → C
  close inner error_code reason = quinn.close inner error_code reason

  abbrev pub remote_address : C → A
  remote_address inner = quinn.remote_address inner

  abbrev pub stable_id : C → ℕ
  stable_id inner = quinn.stable_id inner

-- `get_ref`, which lends quinn's connection.
abbrev pub get_ref : {C : Type 0} → C → C
get_ref inner = inner
