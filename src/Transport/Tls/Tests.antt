-- ===== src/Transport/Tls/Tests.antt =====
-- An example of loading (crates/grpc-quic-transport/src/tls.rs): file 1 has two certificates, and
-- file 2 a key.
use grpc_quic_rs.Common.{ℕ, String, [], ◌∷◌, some, ok, u32_max, ◌≡◌, refl}
use grpc_quic_rs.Transport.Tls.{
  ServerConfig, TlsConfig, server, Rustls, Files, h3, server_from_pem, rustls_display,
}
use grpc_quic_rs.Transport.Tls.Loading.{Loads, server_from_pem_inv}

abbrev config : ServerConfig ℕ
config = record { rest = 0; alpn_protocols = []; max_early_data_size = 0 }

abbrev rustls : Rustls
rustls = record {
  X = ℕ;
  Y = ℕ;
  Cert = ℕ;
  Key = ℕ;
  Roots = ℕ;
  Verifier = ℕ;
  E = String;
  display = λ e. e;
  Builder = ℕ;
  server_builder = ok 0;
  with_single_cert = λ b certs key. ok config;
  with_root_certificates = λ roots. record { rest = 0; alpn_protocols = [] };
  with_custom_certificate_verifier = λ v. record { rest = 1; alpn_protocols = [] };
  webpki_roots = 0;
  generate_simple_self_signed = λ names. ok (1, 2);
}

abbrev files : Files ℕ ℕ
files = record {
  Location = ℕ;
  File = ℕ;
  open_file = λ path. ok path;
  certs = λ file. ok 10 ∷ ok 11 ∷ [];
  private_key = λ file. ok (some 12);
}

abbrev loaded : TlsConfig ℕ ℕ
loaded = server (record config { alpn_protocols = h3; max_early_data_size = u32_max })

server_from_pem_inv_example :
    (c : ServerConfig ℕ) × Loads String rustls files 1 2 c
    × (loaded ≡ server (record c { alpn_protocols = h3; max_early_data_size = u32_max }))
unfolding server_from_pem
server_from_pem_inv_example = server_from_pem_inv String rustls files 1 2 loaded refl
