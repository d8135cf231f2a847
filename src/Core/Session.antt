-- ===== src/Core/Session.antt =====
-- crates/grpc-quic-core/src/client.rs and server.rs: HTTP/3 over a QUIC connection. h3 is a
-- parameter: what its handshakes and `send_request` answer.
use grpc_quic_rs.Common.{
  Bool, if◌then◌else◌, List, [], ◌∷◌, String, push_str, Result, ok, ◌>>=◌, map_err, Display,
  to_string,
}
use grpc_quic_rs.Errors.{CoreError, h3_connection, core_error_from_stream}

-- `C` is quinn's connection, `D` the driver of a client's connection, `H` a `SendRequest`, `V` a
-- server's connection, `N` and `E` h3's connection and stream errors, `S` a request's stream.
pub record H3 (C D H V R S N E : Type 0) : Type 0 where
  pub build_client : C → Result (D × H) N
  pub build_server : C → Result V N
  pub send_request : H → R → Result S E

-- `H3ClientSession`
pub record H3ClientSession (H : Type 0) : Type 0 where
  pub send_req : H

module _ {C D H V R S N E : Type 0} ⦃n : Display N⦄ ⦃e : Display E⦄ (h3 : H3 C D H V R S N E) where
  -- `build_client_conn`: the handle, and the driver that was spawned.
  abbrev build_client_conn : C → Result (D × H) CoreError
  build_client_conn conn = map_err (λ e. h3_connection (to_string e)) (h3.build_client conn)

  -- The task of the driver: what it logs when h3 ends with an error.
  abbrev driver : (N → Bool) → N → List String
  driver is_h3_no_error err =
      if is_h3_no_error err then [] else push_str "h3 client driver error " (to_string err) ∷ []

  -- `H3ClientSession::new`
  abbrev pub new : C → Result (H3ClientSession H) CoreError
  new conn = do built ← build_client_conn conn; ok (record { send_req = built.1 })

  -- `H3ClientSession::send_request`
  abbrev pub send_request : H3ClientSession H → R → Result S CoreError
  unfolding core_error_from_stream
  send_request self req = map_err core_error_from_stream (h3.send_request self.send_req req)

  abbrev build_server_conn : C → Result V CoreError
  build_server_conn conn = map_err (λ e. h3_connection (to_string e)) (h3.build_server conn)

-- `Debug`
abbrev debug : {H : Type 0} → H3ClientSession H → String
debug self = "H3ClientSession"
