-- ===== src/Lib.antt =====
-- The gateway IronBabel: what a request goes through between the socket and a backend, and the
-- configuration, the metrics and the admin requests around it.
--
-- The parts and their files. Base, Text, Error and Json are shared: lists, Boolean tests on the
-- native numbers, texts as lists of bytes, the error type of src/error.rs with its `?`, and the
-- calls of serde_json as an interface with the laws of its documentation.
--   Config: src/config (mod.rs, env.rs, file.rs). Types has the structs and enums; Checks and
--     Validate are `GatewayConfig::validate` check by check; Load is `load` with the overrides.
--     Reading a file and parsing YAML are parameters of Load.
--   Router: src/core/router.rs, `Router::new` with its stable sort and `Router::route`.
--   Middleware: src/core/types.rs and src/core/middleware. Auth is the token check, RateLimit the
--     sliding window, Chain the chain with `build_middleware_chain` of src/core/gateway.rs.
--   HttpGuard: src/protocols/http.rs, the guards on paths and queries and the hop-by-hop filter.
--   Grpc: src/protocols/grpc.rs, the length-prefixed frames.
--   Upstream: src/gateway/http.rs, graphql.rs and grpc.rs, the request that each sends. The HTTP
--     client is a parameter.
--   Metrics: src/admin/store.rs, the counters, the ring buffers and what is reported of them.
--     Interleaved cuts `record_request` into its atomic additions and its blocks under one lock, and
--     lets those of concurrent requests follow each other in any order.
--   Admin: src/admin/config_store.rs and src/admin/handlers.rs; Reports has the requests that only
--     read.
--   Gateway: src/core/gateway.rs. Handler is `handle_request`, Dispatch its helpers for the
--     transports, AdminGuard `admin_middleware`. axum and the transports' gateways are interfaces.
--     Serving is the application that `start` builds, over requests to the routes and to the admin
--     pages one after the other; its theorems put the handler, the chain, the limiter and the metrics
--     together.
--   Shutdown: src/core/shutdown.rs, the signal that ends the tasks, as a step relation over an
--     interface of tokio's `Notify`.
--   Transport: src/gateway. Mqtt, Amqp, Zmq and WebSocket are mqtt.rs, amqp.rs, zmq.rs and ws.rs;
--     the listeners' loop and the time limit, which they share, stand in Transport. The client
--     libraries are parameters. Gateway.Dispatch.Transports puts the transports behind the
--     interface of the request handler.
--   Protocols: src/protocols, the codecs by name, and `build_protocols` of src/core/gateway.rs.
--   Lifecycle: src/core/gateway.rs, `start` and `stop` with the handles of the tasks; Process is
--     `create_gateway` and src/main.rs.
--   LoadGen: src/bin/load_gen.rs, the arguments, the routes and the schedule of the load generator;
--     Pump has its workers and its live statistics as interleaved steps.
--   Examples: the theorems at concrete inputs, with small JSON and client libraries.
--
-- A request enters by Gateway.Handler: the path guard, the router, the chain (token check, then
-- limiter), the rewriting of X-Forwarded-For, and the dispatch, which asks Upstream or a backend.
-- Each answer records one sample in Metrics. State is passed explicitly; what runs under one lock
-- is one step, and Admin.Safety has the steps of concurrent activations. Each call of a backend is
-- kept in a list in `AppState`, so that the theorems can say that none was made. A report of
-- Admin.Reports is made of one state of the store, as when no request is recorded meanwhile.
--
-- Bounds. 64-bit counters wrap, the limit of requests keeps 32 bits, a port 16. The loop of
-- `path_contains_traversal` runs on a fuel above the length of the path, which is enough because a
-- pass that changes the text shortens it. `decode_grpc_frames` recurses on the shorter rest. Clocks
-- are arguments. The float rank of a percentile is a parameter, rates and averages are fractions.
--
-- A call of a client library is a value, an error's text, or none when it has not ended before the
-- time limit; an event loop is the list of what it polls before the limit, so that the end of the
-- list is the limit. A listener's loop is a list of rounds, each with what its session meets and
-- with which branch of each `select!` completes first. The two loops of the WebSocket proxy run over
-- one list of arrivals, in the order in which they see them.
--
-- Not modelled: the pages and templates of the dashboard and its event stream, the ticks of the
-- load generator, the pause before a ZMQ PUB message, the close frames that the WebSocket libraries
-- send by themselves, the routes of the HTTP server, and log lines.
pub mod Base
pub mod Text
pub mod Error
pub mod Config
pub mod Router
pub mod Grpc
pub mod HttpGuard
pub mod Upstream
pub mod Json
pub mod Middleware
pub mod Metrics
pub mod Admin
pub mod Gateway
pub mod Examples
pub mod Shutdown
pub mod Transport
pub mod Protocols
pub mod Lifecycle
pub mod LoadGen
