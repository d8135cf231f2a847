-- ===== src/Transport/Tls/Loading.antt =====
-- Loading a certificate chain and a key (`server_from_pem` of
-- crates/grpc-quic-transport/src/tls.rs).
use grpc_quic_rs.Common.{
  String, List, [], ◌∷◌, map, some, Result, ok, err, ◌≡◌, refl, u32_max, >>=-eq-ok, map_err-eq-ok,
  ok_or-eq-ok, ap, Result-cases, inl, inr, arith, ◌∙◌, subst,
}
use grpc_quic_rs.Transport.Tls.{
  ServerConfig, TlsConfig, server, Rustls, Files, collect, h3, server_of, read_certs, read_key,
  some_certs, server_from_pem, server_self_signed, tls_error,
}

collect-eq-ok :
    {A E : Type 0} (l : List (Result A E)) (items : List A)
    → collect l ≡ ok items
    → l ≡ map ok items
unfolding collect
collect-eq-ok [] [] h = refl
collect-eq-ok [] (x ∷ xs) h = absurd (cc)
collect-eq-ok (ok a ∷ l) items h = elim (Result-cases (collect l)) [
  | inl (rest, e) ↦
      let whole : items ≡ a ∷ rest = ground arith in
      rw whole (ap (◌∷◌ (ok a)) (collect-eq-ok l rest e))
  | inr (x, e) ↦ absurd (ground arith)
]
collect-eq-ok (err e ∷ l) items h = absurd (cc)

collect-map-ok : {A E : Type 0} (items : List A) → collect {E = E} (map ok items) ≡ ok items
unfolding collect
collect-map-ok [] = refl
collect-map-ok {E} (a ∷ items) = rw (collect-map-ok {E = E} items)

module _ (Q : Type 0) (r : Rustls) where
  open r use {X, Y, Cert, Key, Builder}

  server_of-eq-ok :
      (chain : List Cert) (key : Key) (t : TlsConfig X Y)
      → server_of Q r chain key ≡ ok t
      → (builder : Builder) × (config : ServerConfig X) × (r.server_builder ≡ ok builder)
        × (r.with_single_cert builder chain key ≡ ok config)
        × (t ≡ server (record config { alpn_protocols = h3; max_early_data_size = u32_max }))
  unfolding server_of
  server_of-eq-ok chain key t h =
      let (builder, e1, h1) = >>=-eq-ok _ _ t h in
      let (config, e2, h2) = >>=-eq-ok _ _ t h1 in
      (
        builder,
        config,
        map_err-eq-ok _ r.server_builder builder e1,
        map_err-eq-ok _ (r.with_single_cert builder chain key) config e2,
        cc,
      )

  -- A self-signed configuration is that of rustls for the generated certificate and key.
  pub server_self_signed_inv :
      (names : List String) (t : TlsConfig X Y)
      → server_self_signed Q r names ≡ ok t
      → (cert : Cert) × (key : Key) × (builder : Builder) × (config : ServerConfig X)
        × (r.generate_simple_self_signed names ≡ ok (cert, key))
        × (r.server_builder ≡ ok builder)
        × (r.with_single_cert builder (cert ∷ []) key ≡ ok config)
        × (t ≡ server (record config { alpn_protocols = h3; max_early_data_size = u32_max }))
  unfolding server_self_signed
  server_self_signed_inv names t h =
      let (pair, e1, h1) =
        >>=-eq-ok (tls_error Q r (r.generate_simple_self_signed names))
          (λ g. server_of Q r (g.0 ∷ []) g.1) t h in
      let (builder, config, e2, e3, e4) = server_of-eq-ok (pair.0 ∷ []) pair.1 t h1 in
      (
        pair.0,
        pair.1,
        builder,
        config,
        map_err-eq-ok _ (r.generate_simple_self_signed names) pair e1,
        e2,
        e3,
        e4,
      )

module _ (Q : Type 0) (r : Rustls) (f : Files r.Cert r.Key) (cert_path key_path : f.Location) where
  open r use {X, Y, Cert, Key, Builder}
  open f use {File, open_file, certs, private_key}

  -- What has to be found on the way to a configuration.
  pub record Loads (config : ServerConfig X) : Type 0 where
    pub cert_file : File
    pub opened : open_file cert_path ≡ ok cert_file
    pub first : Cert
    pub others : List Cert
    pub parsed : certs cert_file ≡ map ok (first ∷ others)
    pub key_file : File
    pub key_opened : open_file key_path ≡ ok key_file
    pub key : Key
    pub key_parsed : private_key key_file ≡ ok (some key)
    pub builder : Builder
    pub started : r.server_builder ≡ ok builder
    pub built : r.with_single_cert builder (first ∷ others) key ≡ ok config

  -- If both files can be opened, the first holds certificates and nothing that cannot be parsed,
  -- the second a key, and rustls takes them, the result is a server's configuration from them, for
  -- the protocol `h3` and with early data of any size.
  server_from_pem-Loads :
      (config : ServerConfig X)
      → Loads config
      → server_from_pem Q r f cert_path key_path
        ≡ ok (server (record config { alpn_protocols = h3; max_early_data_size = u32_max }))
  unfolding server_from_pem
  server_from_pem-Loads config l =
      rw
        (
          l.opened,
          l.parsed,
          collect-map-ok (l.first ∷ l.others),
          l.key_opened,
          l.key_parsed,
          l.started,
          l.built,
        )
        refl

  some_certs-eq-ok :
      (found chain : List Cert)
      → some_certs Q r f found ≡ ok chain
      → (first : Cert) × (others : List Cert) × (found ≡ first ∷ others) × (chain ≡ first ∷ others)
  unfolding some_certs
  some_certs-eq-ok [] chain h = absurd (cc)
  some_certs-eq-ok (c ∷ cs) chain h = (c, cs, refl, cc)

  read_certs-eq-ok :
      (found : List Cert)
      → read_certs Q r f cert_path ≡ ok found
      → (file : File) × (open_file cert_path ≡ ok file) × (certs file ≡ map ok found)
  unfolding read_certs
  read_certs-eq-ok found h =
      let (file, e1, h1) = >>=-eq-ok _ _ found h in
      (
        file,
        map_err-eq-ok _ (open_file cert_path) file e1,
        collect-eq-ok (certs file) found (map_err-eq-ok _ (collect (certs file)) found h1),
      )

  read_key-eq-ok :
      (key : Key)
      → read_key Q r f key_path ≡ ok key
      → (file : File) × (open_file key_path ≡ ok file) × (private_key file ≡ ok (some key))
  unfolding read_key
  read_key-eq-ok key h =
      let (file, e1, h1) = >>=-eq-ok _ _ key h in
      let (found, e2, h2) = >>=-eq-ok _ _ key h1 in
      let last : private_key file ≡ ok found = map_err-eq-ok _ (private_key file) found e2 in
      (file, map_err-eq-ok _ (open_file key_path) file e1, rw (last, ok_or-eq-ok _ found key h2))

  -- A configuration is never made in another way: whenever the result is one, the files hold what
  -- they have to, and the configuration is that of rustls, for `h3` and with early data.
  pub server_from_pem_inv :
      (t : TlsConfig X Y)
      → server_from_pem Q r f cert_path key_path ≡ ok t
      → (config : ServerConfig X) × Loads config
        × (t ≡ server (record config { alpn_protocols = h3; max_early_data_size = u32_max }))
  unfolding server_from_pem
  server_from_pem_inv t h =
      let (found, e1, h1) = >>=-eq-ok (read_certs Q r f cert_path) _ t h in
      let (chain, e2, h2) = >>=-eq-ok (some_certs Q r f found) _ t h1 in
      let (secret, e3, h4) = >>=-eq-ok (read_key Q r f key_path) _ t h2 in
      let (first, others, e4, e5) = some_certs-eq-ok found chain e2 in
      let (cert_file, opened, parsed) = read_certs-eq-ok found e1 in
      let (key_file, key_opened, key_parsed) = read_key-eq-ok secret e3 in
      let (builder, config, started, built, e6) = server_of-eq-ok Q r chain secret t h4 in
      (
        config,
        record {
          cert_file = cert_file;
          opened = opened;
          first = first;
          others = others;
          parsed = parsed ∙ ap (map ok) e4;
          key_file = key_file;
          key_opened = key_opened;
          key = secret;
          key_parsed = key_parsed;
          builder = builder;
          started = started;
          built = subst (λ l. r.with_single_cert builder l secret ≡ ok config) e5 built;
        },
        e6,
      )
