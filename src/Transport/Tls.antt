-- ===== src/Transport/Tls.antt =====
-- crates/grpc-quic-transport/src/tls.rs: TLS configurations. rustls, rcgen and the file system are
-- parameters: what they build, and the errors that they may answer with.
pub mod Loading
mod Tests
use grpc_quic_rs.Common.{
  ℕ, String, List, [], ◌∷◌, Option, none, some, Result, ok, err, ◌>>=◌, map_err, ok_or, Bytes,
  codes, Display, to_string, push_str, IoError, io_error_display, u32_max,
}
use grpc_quic_rs.Errors.{TransportError, tls}

-- `rustls::ServerConfig` and `ClientConfig`: the fields that the crate sets, and the rest.
pub record ServerConfig (X : Type 0) : Type 0 where
  pub rest : X
  pub alpn_protocols : List Bytes
  pub max_early_data_size : ℕ

pub record ClientConfig (Y : Type 0) : Type 0 where
  pub rest : Y
  pub alpn_protocols : List Bytes

-- `TlsConfig`, with its private enum.
pub data TlsConfig (X Y : Type 0) : Type 0 where
  server : ServerConfig X → TlsConfig X Y
  client : ClientConfig Y → TlsConfig X Y

-- What the crate calls of rustls and rcgen to build a configuration; `Verifier` is what a client
-- checks certificates by.
pub record Rustls : Type 1 where
  pub X : Type 0
  pub Y : Type 0
  pub Cert : Type 0
  pub Key : Type 0
  pub Roots : Type 0
  pub Verifier : Type 0
  pub E : Type 0
  pub display : E → String
  pub Builder : Type 0
  pub server_builder : Result Builder E  -- with TLS 1.3 alone
  pub with_single_cert : Builder → List Cert → Key → Result (ServerConfig X) E
  pub with_root_certificates : Roots → ClientConfig Y
  pub with_custom_certificate_verifier : Verifier → ClientConfig Y
  pub webpki_roots : Roots
  pub generate_simple_self_signed : List String → Result (Cert × Key) E

-- The files: what `File::open` gives, and the readers of `rustls_pemfile`, which answer for each
-- item of a file.
pub record Files (Cert Key : Type 0) : Type 1 where
  pub Location : Type 0
  pub File : Type 0
  pub open_file : Location → Result File IoError
  pub certs : File → List (Result Cert IoError)
  pub private_key : File → Result (Option Key) IoError

-- `collect::<Result<Vec<_>, _>>`: the first error, or all items.
pub collect : {A E : Type 0} → List (Result A E) → Result (List A) E
collect [] = ok []
collect (ok a ∷ rest) = elim (collect rest) [ ok items ↦ ok (a ∷ items) | err e ↦ err e ]
collect (err e ∷ rest) = err e

abbrev pub h3 : List Bytes
h3 = codes "h3" ∷ []

-- `TlsConfig::server_config` and `client_config`.
module _ {X Y Q : Type 0} where
  unfoldable pub server_config : TlsConfig X Y → Result (ServerConfig X) (TransportError Q)
  server_config (server c) = ok c
  server_config (client c) = err (tls "expected server config")

  unfoldable pub client_config : TlsConfig X Y → Result (ClientConfig Y) (TransportError Q)
  client_config (client c) = ok c
  client_config (server c) = err (tls "expected client config")

module _ (Q : Type 0) (r : Rustls) where
  open r use {X, Y, Cert, Key, E, Verifier}

  instance abbrev rustls_display : Display E
  rustls_display = record { display = r.display }

  -- `map_err(|e| TransportError::Tls(e.to_string()))`
  abbrev tls_error : {A : Type 0} → Result A E → Result A (TransportError Q)
  tls_error = map_err (λ e. tls (to_string e))

  -- The configuration of a server, from its certificates and key.
  server_of : List Cert → Key → Result (TlsConfig X Y) (TransportError Q)
  server_of certs key = do
    builder ← tls_error r.server_builder
    config ← tls_error (r.with_single_cert builder certs key)
    ok (server (record config { alpn_protocols = h3; max_early_data_size = u32_max }))

  module _ (f : Files Cert Key) where
    open f use {Location, open_file, certs, private_key}

    read_certs : Location → Result (List Cert) (TransportError Q)
    unfolding collect
    read_certs path = do
      file ← map_err (λ e. tls (push_str "cannot open cert file: " (to_string e))) (open_file path)
      map_err (λ e. tls (push_str "cannot parse certs: " (to_string e))) (collect (certs file))

    read_key : Location → Result Key (TransportError Q)
    read_key path = do
      file ← map_err (λ e. tls (push_str "cannot open key file: " (to_string e))) (open_file path)
      key ←
          map_err (λ e. tls (push_str "cannot parse private key: " (to_string e)))
            (private_key file)
      ok_or (tls "no private key found in PEM file") key

    some_certs : List Cert → Result (List Cert) (TransportError Q)
    some_certs [] = err (tls "no certificates found in PEM file")
    some_certs (c ∷ cs) = ok (c ∷ cs)

    pub server_from_pem : Location → Location → Result (TlsConfig X Y) (TransportError Q)
    unfolding read_certs read_key some_certs server_of
    server_from_pem cert_path key_path = do
      found ← read_certs cert_path
      chain ← some_certs found
      key ← read_key key_path
      server_of chain key

  unfoldable pub server_self_signed : List String → Result (TlsConfig X Y) (TransportError Q)
  unfolding server_of
  server_self_signed hostnames = do
    generated ← tls_error (r.generate_simple_self_signed hostnames)
    server_of (generated.0 ∷ []) generated.1

module _ (r : Rustls) where
  open r use {X, Y, Verifier}

  abbrev for_h3 : ClientConfig Y → TlsConfig X Y
  for_h3 c = client (record c { alpn_protocols = h3 })

  abbrev client_default : TlsConfig X Y
  client_default = for_h3 (r.with_root_certificates r.webpki_roots)

  abbrev client_insecure : Verifier → TlsConfig X Y
  client_insecure skip = for_h3 (r.with_custom_certificate_verifier skip)
