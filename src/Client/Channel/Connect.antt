-- ===== src/Client/Channel/Connect.antt =====
-- The address to which a channel is bound (`QuicChannelBuilder::connect` of
-- crates/grpc-quic-client/src/channel.rs).
use grpc_quic_rs.Common.{some, String, List, ◌∷◌, ◌++◌, none, ok, unwrap_or, ◌≡◌, refl}
use grpc_quic_rs.Discovery
use grpc_quic_rs.Discovery.{StaticResolver, static_resolver}
use grpc_quic_rs.Discovery.Static.{IsUnnamed, resolve_first}
use grpc_quic_rs.Client.Pool
use grpc_quic_rs.Client.Channel.{
  QuicChannelBuilder, Addresses, remote_of, first_address, connect, resolver,
}

module _ {A C H K F Q : Type 0} (a : Addresses A) (self : QuicChannelBuilder A K F) where
  -- A name that is no address, over a static resolver, binds the channel to the address of the
  -- first entry with that name, whatever resolver was set before; the rest is as configured, and
  -- the pool is empty.
  pub connect_resolved :
      (name : String) (addr : A) (before after : List (String × A))
      → a.parse name ≡ none
      → IsUnnamed name before
      → connect {C = C} {H = H} {Q = Q} a
          (resolver (static_resolver (Discovery.new (before ++ (name, addr) ∷ after))) self)
          name
        ≡ ok (record {
          remote = addr;
          server_name = unwrap_or (a.ip_text addr) self.server_name;
          tls = self.tls;
          retry = self.retry;
          pool = Pool.new;
          concurrency_limit = self.concurrency_limit;
        })
  unfolding connect remote_of first_address resolver static_resolver Pool.new
  connect_resolved name addr before after h u = rw (h, resolve_first name addr before after u) refl

  -- A text that is an address binds the channel to it, without a look at the resolver; the rest is
  -- as configured. No connection is made: the pool is empty.
  pub connect_literal :
      (text : String) (addr : A)
      → a.parse text ≡ some addr
      → connect {C = C} {H = H} {Q = Q} a self text
        ≡ ok (record {
          remote = addr;
          server_name = unwrap_or (a.ip_text addr) self.server_name;
          tls = self.tls;
          retry = self.retry;
          pool = Pool.new;
          concurrency_limit = self.concurrency_limit;
        })
  unfolding connect remote_of Pool.new
  connect_literal text addr h = rw h refl
