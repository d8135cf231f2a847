-- ===== src/Errors.antt =====
-- The error types of the crates and their texts: crates/grpc-quic-transport/src/error.rs,
-- crates/grpc-quic-core/src/error.rs, crates/grpc-quic-client/src/error.rs and
-- crates/grpc-quic-server/src/error.rs. `thiserror` derives `Display` from the `#[error]` texts.
-- quinn's `ConnectionError` and h3's errors are type parameters, with the texts that they display.
use grpc_quic_rs.Common.{
  ℕ, String, Display, to_string, push_str, decimal, IoError, io_error_display,
}

pub data TransportError (Q : Type 0) : Type 0 where
  endpoint_bind : String → TransportError Q
  connection : Q → TransportError Q
  stream : String → TransportError Q
  tls : String → TransportError Q
  io : IoError → TransportError Q

pub data CoreError : Type 0 where
  h3_stream : String → CoreError
  h3_connection : String → CoreError
  io : IoError → CoreError
  transport : String → CoreError
  connection_closed : CoreError
  invalid_response : String → CoreError

pub data ClientError (Q : Type 0) : Type 0 where
  transport : TransportError Q → ClientError Q
  retries_exhausted : ℕ → String → ClientError Q
  closed : ClientError Q
  stream_io : IoError → ClientError Q
  invalid_response : String → ClientError Q
  request_build : String → ClientError Q

pub data ServerError (Q : Type 0) : Type 0 where
  transport : TransportError Q → ServerError Q
  invalid_request : String → ServerError Q
  stream_io : IoError → ServerError Q
  shutdown : ServerError Q

-- The `#[error]` texts.
abbrev pub transport_error_text : {Q : Type 0} ⦃d : Display Q⦄ → TransportError Q → String
transport_error_text (endpoint_bind s) = push_str "endpoint bind error: " s
transport_error_text (connection q) = push_str "connection error: " (to_string q)
transport_error_text (stream s) = push_str "stream error: " s
transport_error_text (tls s) = push_str "TLS error: " s
transport_error_text (TransportError.io e) = push_str "I/O error: " (to_string e)

abbrev pub core_error_text : CoreError → String
core_error_text (h3_stream s) = push_str "h3 stream error: " s
core_error_text (h3_connection s) = push_str "h3 connection error: " s
core_error_text (CoreError.io e) = push_str "I/O error: " (to_string e)
core_error_text (CoreError.transport s) = push_str "QUIC transport error: " s
core_error_text connection_closed = "connection closed"
core_error_text (CoreError.invalid_response s) = push_str "invalid response: " s

abbrev pub client_error_text : {Q : Type 0} ⦃d : Display Q⦄ → ClientError Q → String
client_error_text (ClientError.transport e) = push_str "transport error: " (transport_error_text e)
client_error_text (retries_exhausted n last) =
    push_str "retries exhausted after " (push_str (decimal n) (push_str " attempts: " last))
client_error_text closed = "channel closed"
client_error_text (ClientError.stream_io e) = push_str "stream I/O error: " (to_string e)
client_error_text (ClientError.invalid_response s) = push_str "invalid response: " s
client_error_text (request_build s) = push_str "request build error: " s

abbrev pub server_error_text : {Q : Type 0} ⦃d : Display Q⦄ → ServerError Q → String
server_error_text (ServerError.transport e) = push_str "transport error: " (transport_error_text e)
server_error_text (invalid_request s) = push_str "invalid request: " s
server_error_text (ServerError.stream_io e) = push_str "stream I/O error: " (to_string e)
server_error_text shutdown = "server shutting down"

instance abbrev pub transport_error_display :
    {Q : Type 0} ⦃d : Display Q⦄ → Display (TransportError Q)
transport_error_display = record { display = transport_error_text }

instance abbrev pub core_error_display : Display CoreError
core_error_display = record { display = core_error_text }

instance abbrev pub client_error_display : {Q : Type 0} ⦃d : Display Q⦄ → Display (ClientError Q)
client_error_display = record { display = client_error_text }

instance abbrev pub server_error_display : {Q : Type 0} ⦃d : Display Q⦄ → Display (ServerError Q)
server_error_display = record { display = server_error_text }

-- `From` conversions, which `?` and `CoreError::from` apply.
module _ {S : Type 0} ⦃d : Display S⦄ where
  -- `From<h3::error::StreamError>`
  unfoldable pub core_error_from_stream : S → CoreError
  core_error_from_stream e = h3_stream (to_string e)

  -- `From<h3::error::ConnectionError>`
  abbrev core_error_from_connection : S → CoreError
  core_error_from_connection e = h3_connection (to_string e)
