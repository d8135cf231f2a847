-- ===== src/Client/Channel/Tests.antt =====
-- An example of a channel by name (crates/grpc-quic-client/src/channel.rs).
use grpc_quic_rs.Common.{ℕ, String, [], ◌∷◌, none, ok, ◌≡◌, refl, differs}
use grpc_quic_rs.Fixtures.{whole_floats}
use grpc_quic_rs.Discovery
use grpc_quic_rs.Discovery.{static_resolver}
use grpc_quic_rs.Client.Pool
use grpc_quic_rs.Client.Channel.{QuicChannelBuilder, Addresses, builder, resolver, connect}
use grpc_quic_rs.Client.Channel.Connect.{connect_resolved}

-- No text is an address.
abbrev addresses : Addresses ℕ
addresses = record { parse = λ s. none; ip_text = λ a. "10.0.0.1" }

abbrev fresh : QuicChannelBuilder ℕ ℕ ℕ
fresh = builder whole_floats

connect_resolved_example :
    connect {C = ℕ} {H = ℕ} {Q = String} addresses
      (resolver (static_resolver (Discovery.new (("a", 1) ∷ ("b", 2) ∷ ("b", 3) ∷ []))) fresh)
      "b"
    ≡ ok (record {
      remote = 2;
      server_name = "10.0.0.1";
      tls = none;
      retry = fresh.retry;
      pool = Pool.new;
      concurrency_limit = 256;
    })
connect_resolved_example =
    connect_resolved addresses fresh "b" 2 (("a", 1) ∷ []) (("b", 3) ∷ []) refl
      (differs "a" "b" refl, tt)
