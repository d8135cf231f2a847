-- ===== src/Client/Channel.antt =====
-- The builder of a channel and `connect` of crates/grpc-quic-client/src/channel.rs. The parser and
-- the text of addresses are the standard library's and parameters here; a resolver is what it
-- answers.
pub mod Connect
pub mod Calls
mod Tests
use grpc_quic_rs.Common.{
  ℕ, String, List, [], ◌∷◌, Option, none, some, Result, ok, err, ◌>>=◌, push_str, unwrap_or, Poll,
  ready,
}
use grpc_quic_rs.Errors.{ClientError, request_build}
use grpc_quic_rs.Client.Pool
use grpc_quic_rs.Client.Pool.{Slots}
use grpc_quic_rs.Client.Retry.{Float, RetryPolicy}
use grpc_quic_rs.Client.Retry
use grpc_quic_rs.Discovery.{Resolver}

abbrev pub default_concurrency_limit : ℕ
default_concurrency_limit = 256

-- `QuicChannelBuilder`; `K` is `TlsConfig`, `A` is `SocketAddr`.
pub record QuicChannelBuilder (A K F : Type 0) : Type 0 where
  pub retry : RetryPolicy F
  pub server_name : Option String
  pub tls : Option K
  pub resolver : Option (Resolver A)
  pub concurrency_limit : ℕ

-- `QuicChannel`, with the permits of its semaphore.
pub record QuicChannel (A C H K F : Type 0) : Type 0 where
  pub remote : A
  pub server_name : String
  pub tls : Option K
  pub retry : RetryPolicy F
  pub pool : Slots A C H
  pub concurrency_limit : ℕ

-- `QuicChannel::builder`
abbrev pub builder : {A K : Type 0} → (f : Float) → QuicChannelBuilder A K f.F
builder f = record {
  retry = Retry.default f;
  server_name = none;
  tls = none;
  resolver = none;
  concurrency_limit = default_concurrency_limit;
}

module _ {A K F : Type 0} where
  abbrev retry_policy : RetryPolicy F → QuicChannelBuilder A K F → QuicChannelBuilder A K F
  retry_policy policy self = record self { retry = policy }

  abbrev pub server_name : String → QuicChannelBuilder A K F → QuicChannelBuilder A K F
  server_name name self = record self { server_name = some name }

  abbrev pub tls : K → QuicChannelBuilder A K F → QuicChannelBuilder A K F
  tls config self = record self { tls = some config }

  abbrev pub concurrency_limit : ℕ → QuicChannelBuilder A K F → QuicChannelBuilder A K F
  concurrency_limit limit self = record self { concurrency_limit = limit }

  pub resolver : Resolver A → QuicChannelBuilder A K F → QuicChannelBuilder A K F
  resolver r self = record self { resolver = some r }

-- What an address is to the standard library: `parse::<SocketAddr>` and `ip().to_string()`.
pub record Addresses (A : Type 0) : Type 0 where
  pub parse : String → Option A
  pub ip_text : A → String

module _ {A Q : Type 0} where
  first_address : String → List A → Result A (ClientError Q)
  first_address addr_str [] =
      err (request_build (push_str "resolver returned no addresses for: " addr_str))
  first_address addr_str (x ∷ addrs) = ok x

  remote_of : String → Option A → Option (Resolver A) → Result A (ClientError Q)
  unfolding first_address
  remote_of addr_str (some addr) r = ok addr
  remote_of addr_str none (some r) = first_address addr_str (r.resolve addr_str)
  remote_of addr_str none none =
      err (request_build (push_str "invalid address and no resolver configured: " addr_str))

module _ {A C H K F Q : Type 0} (a : Addresses A) where
  unfoldable pub connect :
      QuicChannelBuilder A K F → String → Result (QuicChannel A C H K F) (ClientError Q)
  unfolding remote_of Pool.new
  connect self addr_str = do
    remote ← remote_of addr_str (a.parse addr_str) self.resolver
    ok (record {
      remote = remote;
      server_name = unwrap_or (a.ip_text remote) self.server_name;
      tls = self.tls;
      retry = self.retry;
      pool = Pool.new;
      concurrency_limit = self.concurrency_limit;
    })

-- `poll_ready`
abbrev poll_ready : {X : Type 0} → Poll (Result (Unit {0}) X)
poll_ready = ready (ok tt)
