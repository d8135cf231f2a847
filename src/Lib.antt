-- ===== src/Lib.antt =====
-- grpc-quic-rs: gRPC over HTTP/3 and QUIC, in Rust.
--
-- The program's parts. A client's `QuicChannel` (crates/grpc-quic-client) is a tower service: it
-- takes a connection from its pool, opens an HTTP/3 stream on it, spawns a task that forwards the
-- request's body, and returns the response with a body that reads the stream. A `QuicServer`
-- (crates/grpc-quic-server) accepts connections, and on each of them requests, which it hands to a
-- tower service; it writes the service's response to the stream. The bodies, the HTTP/3 sessions and
-- their errors are crates/grpc-quic-core; endpoints, connections and TLS configurations are
-- crates/grpc-quic-transport; names are resolved by crates/grpc-quic-discovery, and all of them
-- count into crates/grpc-quic-metrics.
--
-- The files, and the code that each is about:
--   Common, Errors      what the code uses of Rust's standard library; the error types of the crates
--   Metrics             crates/grpc-quic-metrics/src/prometheus.rs: counters and recorders, and in
--                       Metrics/Bag what is left of a run when its order is forgotten;
--                       Metrics/Spans is tracing.rs of the same crate
--   Transport/Tls       crates/grpc-quic-transport/src/tls.rs: TlsConfig, server_from_pem, ...
--   Transport/Verifier  the same file: SkipServerVerification
--   Transport/Endpoint, Transport/Connection   endpoint.rs and connection.rs of the same crate
--   Core/Http, Core/Wire   header maps, frames, and the operations on the sending half of a stream
--   Core/Body/Server, Core/Body/Client   crates/grpc-quic-core/src/body.rs: ServerRecvBody and
--                       ClientRecvBody with each branch of poll_frame; Core/Body/Peer is the
--                       reference that they are measured against
--   Core/Session        crates/grpc-quic-core/src/client.rs and server.rs
--   Discovery           crates/grpc-quic-discovery/src/resolver.rs: Resolver, StaticResolver
--   Client/Pool         crates/grpc-quic-client/src/pool.rs: get_or_connect, its task, invalidate;
--                       Client/Pool/System interleaves any number of callers and tasks, and
--                       Client/Pool/System/Spec is the contract that it refines
--   Client/Call         crates/grpc-quic-client/src/channel.rs: call, with its attempts
--   Client/Forward      the same file: the task that forwards a request's body
--   Client/Channel      the same file: QuicChannelBuilder and connect; Client/Channel/Calls is the
--                       calls that share a channel's semaphore
--   Client/Timeout      the same file: parse_grpc_timeout
--   Client/Retry        crates/grpc-quic-client/src/retry.rs: RetryPolicy, backoff_for
--   Server/Acceptor     crates/grpc-quic-server/src/acceptor.rs: handle_request
--   Server/Serve        crates/grpc-quic-server/src/server.rs: serve_with_incoming_shutdown and
--                       handle_connection, as steps of the server's tasks; Server/Serve/Service
--                       is the contract that they refine
--   Server/Builder      the same file: QuicServerBuilder, serve, serve_with_shutdown
--   Exchange            both directions of a body, from the task that writes it to the body that is
--                       read; Exchange/Rpc composes them with call and handle_request
--   Examples            examples/src/server.rs and client.rs: the streaming service and both main
--   Benches             crates/grpc-quic-benches/src/lib.rs: set-up, latencies and reports;
--                       Benches/Loss, Benches/Latencies and Benches/Handshake are loss_sim.rs,
--                       quic_latency.rs with tcp_latency.rs, and handshake.rs of benches/ beside it
--   Fixtures, and each Tests   concrete instances and examples
--
-- How state and operations are modelled. The pool's map is a function from addresses to slots, and
-- each critical section under its mutex one function; between them tasks interleave as `Step`s. A
-- oneshot channel is a number. The server is a record of permits, connections and the mode of its
-- loop, and a step is one turn of a `select!` or the end of a task. A body is a record with the
-- source's flags; one poll is a function from the body and the world (the time, the receiver, the
-- stream) to its answer, the next body, and the tasks that it aborted. A task that writes to a
-- stream is a function to the trace of its operations, over a network that says how the n-th
-- operation ends. A call is a function to its events and its result, over a world that says what
-- pool, h3 and server answer to the n-th attempt. Errors are values, and `?` is the chain of
-- `Result`.
--
-- Loops and bounds. All loops are structural: over the frames of a body, the attempts that are left,
-- the entries of a resolver, the characters of a header. Only the decimal text of a number is on
-- fuel, of 20 digits, which every `u64` has room in. Counters and `val * 3600` go round at 2^64, as
-- the atomics and release builds do; a cast of `u32` to `i32` is written
-- out. A `Duration` is its nanoseconds, and an instant a number, with room for every deadline.
--
-- Parameters. quinn, h3, rustls, rcgen, prometheus, http, tonic, hdrhistogram, the file system and
-- the host are records of the operations that the crates call, with the documented laws that proofs
-- need: maps of headers (a name has no case and can have several values), counters, and counts of a
-- histogram; of the retry policy's `f64` nothing is assumed. tokio's semaphore is taken to be fair,
-- and quinn's transport to let 100 streams be open at once on a connection, as both document. h3 may
-- cut what it carries into chunks as it likes: the theorems on both directions are about bytes and
-- trailers. A panic is a result where the code unwraps.
--
-- Not modelled: generated code, the facade crate (it only re-exports), subscribers, log lines other
-- than that of h3's driver, and criterion, whose calls and iterations are parameters. In one call
-- the permit of the client's semaphore is an answer of the world; its count is the state of
-- Client/Channel/Calls. A text of a header is its bytes, which are ASCII there.
pub mod Common
pub mod Errors
pub mod Fixtures
pub mod Metrics
pub mod Transport
pub mod Core
pub mod Discovery
pub mod Client
pub mod Server
pub mod Exchange
pub mod Examples
pub mod Benches
