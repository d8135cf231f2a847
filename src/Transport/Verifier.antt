-- ===== src/Transport/Verifier.antt =====
-- `SkipServerVerification` of crates/grpc-quic-transport/src/tls.rs: the verifier of
-- `client_insecure`. The certificates, names and signatures are those of rustls, and its trait is
-- the record.
use grpc_quic_rs.Common.{ℕ, List, [], ◌∷◌, Bytes, Result, ok}

-- `rustls::SignatureScheme`, as far as the crate names it, and the other schemes by their codes.
pub data SignatureScheme : Type 0 where
  rsa_pkcs1_sha256 rsa_pkcs1_sha384 rsa_pkcs1_sha512 : SignatureScheme
  ecdsa_nistp256_sha256 ecdsa_nistp384_sha384 ecdsa_nistp521_sha512 : SignatureScheme
  rsa_pss_sha256 rsa_pss_sha384 rsa_pss_sha512 : SignatureScheme
  other : ℕ → SignatureScheme

-- The two tokens that a verifier answers with.
pub data ServerCertVerified : Type 0 where
  assertion : ServerCertVerified

pub data HandshakeSignatureValid : Type 0 where
  assertion : HandshakeSignatureValid

-- `ServerCertVerifier`, at one certificate type, name, signature and time.
pub record ServerCertVerifier (Cert Name Sig T E : Type 0) : Type 0 where
  pub supported_verify_schemes : List SignatureScheme
  pub verify_server_cert : Cert → List Cert → Name → Bytes → T → Result ServerCertVerified E
  pub verify_tls12_signature : Bytes → Cert → Sig → Result HandshakeSignatureValid E
  pub verify_tls13_signature : Bytes → Cert → Sig → Result HandshakeSignatureValid E

-- `SkipServerVerification`
abbrev skip_server_verification :
    {Cert Name Sig T E : Type 0} → ServerCertVerifier Cert Name Sig T E
skip_server_verification = record {
  supported_verify_schemes =
      rsa_pkcs1_sha256 ∷ rsa_pkcs1_sha384 ∷ rsa_pkcs1_sha512 ∷ ecdsa_nistp256_sha256
      ∷ ecdsa_nistp384_sha384 ∷ ecdsa_nistp521_sha512 ∷ rsa_pss_sha256 ∷ rsa_pss_sha384
      ∷ rsa_pss_sha512 ∷ [];
  verify_server_cert = λ end_entity intermediates server_name ocsp_response now. ok assertion;
  verify_tls12_signature = λ message cert dss. ok assertion;
  verify_tls13_signature = λ message cert dss. ok assertion;
}
