-- ===== src/Gateway/Handler.antt =====
-- src/core/gateway.rs: `handle_request`. The answer is none where the source
-- has `unreachable!()`.
pub mod Ways
pub mod Traces
pub mod Answers
pub mod Addressed
pub mod Configured
pub mod Reported
use iron_babel.Base.{
  ℕ, ◌*◌, Bool, true, false, Option, none, some, List, [], ◌∷◌, ◌++◌, if◌then◌else◌,
}
use iron_babel.Text.{Str, text, decimal}
use iron_babel.Error.{Error, Result, ok, err, to_string}
use iron_babel.HttpGuard.{path_contains_traversal}
use iron_babel.Config.Types.{
  TransportConfig, http, zmq, graphql, grpc, web_socket, mqtt, amqp, RouteConfig,
  WebSocketTransportConfig,
}
use iron_babel.Json.{Json}
use iron_babel.Metrics.{Sample, record_request}
use iron_babel.Router.{Router, route}
use iron_babel.Middleware.{Request}
use iron_babel.Middleware.Chain
use iron_babel.Middleware.Chain.{Middleware, rate_limit_window_secs}
use iron_babel.Gateway.{
  HttpResponse, Incoming, Axum, Backends, Forwarded, AppState, Times, set_forwarded_for,
  transport_target, transport_timeout, finalize_response,
}
use iron_babel.Gateway.Dispatch.{Outcome, dispatch}

-- The request that the chain is asked about.
unfoldable pub core_request : RouteConfig → Incoming → Str → Request
core_request r req body = record {
  body = body;
  metadata = record {
    protocol = text "http";
    method = some req.method;
    path = some req.path;
    headers = req.headers;
    timeout = some (transport_timeout r.transport * 1000000000);
    remote_addr = some req.remote_addr;
  };
}

unfoldable pub or_empty : Option Str → Str
or_empty none = []
or_empty (some s) = s

unfoldable pub or_minute : Option ℕ → ℕ
or_minute none = 60
or_minute (some n) = n

module _ (J : Json) (axum : Axum) (backends : Backends) (router : Router) (times : Times) where
  -- Records the sample and finalizes the response.
  unfoldable pub answer :
      Incoming
      → Option Str
      → Str
      → ℕ
      → Option Str
      → HttpResponse
      → List Forwarded
      → AppState J.Value
      → HttpResponse × AppState J.Value
  answer req matched target status error response forwarded state = (
    finalize_response J axum state.middleware response,
    record {
      metrics =
          record_request times.now_ms
            (record {
              method = req.method;
              path = req.path;
              matched_route = matched;
              upstream_target = target;
              status_code = status;
              latency_ms = times.latency_ms;
              error = error;
            })
            state.metrics;
      middleware = state.middleware;
      forwarded = state.forwarded ++ forwarded;
    },
  )

  answer_outcome :
      RouteConfig
      → Incoming
      → AppState J.Value
      → Option Outcome
      → Option (HttpResponse × AppState J.Value)
  answer_outcome r req state none = none
  answer_outcome r req state (some o) =
      some (answer req (some r.path) o.target o.status o.error o.response o.forwarded state)

  -- What follows the chain: `state` has the chain as the request left it.
  unfoldable pub after_middleware :
      RouteConfig
      → Incoming
      → AppState J.Value
      → Result Request
      → Option (HttpResponse × AppState J.Value)
  unfolding answer_outcome or_empty or_minute
  after_middleware r req state (ok core) = answer_outcome r req state (
      dispatch axum backends J r req
        (set_forwarded_for core.metadata.headers (or_empty core.metadata.remote_addr)) core.body)
  after_middleware r req state (err (Error.unauthorized msg)) = some (
      answer req (some r.path) (transport_target r.transport) 401 none
        (axum.into_response 401 [] msg) [] state)
  after_middleware r req state (err Error.rate_limited) = some (
      answer req (some r.path) (transport_target r.transport) 429 none
        (axum.into_response 429
          ((text "retry-after", decimal (or_minute (rate_limit_window_secs J state.middleware)))
            ∷ [])
          (text "Too many requests"))
        [] state)
  after_middleware r req state (err e) = some (
      answer req (some r.path) (transport_target r.transport) 500 (some (to_string e))
        (axum.into_response 500 [] []) [] state)

  through_chain :
      RouteConfig
      → Incoming
      → AppState J.Value
      → Result Request × List (Middleware J.Value)
      → Option (HttpResponse × AppState J.Value)
  through_chain r req state (result, middleware) =
      after_middleware r req
        (record { metrics = state.metrics; middleware = middleware; forwarded = state.forwarded })
        result

  unfoldable pub handle_body :
      RouteConfig
      → Incoming
      → Option Str
      → AppState J.Value
      → Option (HttpResponse × AppState J.Value)
  unfolding through_chain
  handle_body r req none state = some (
      answer req (some r.path) (transport_target r.transport) 413 none
        (axum.into_response 413 [] (text "Body too large")) [] state)
  handle_body r req (some body) state =
      through_chain r req state
        (Chain.handle_request J state.middleware times.now (core_request r req body))

  -- A WebSocket upgrade, before the body is read and before the chain.
  unfoldable pub handle_upgrade :
      RouteConfig
      → WebSocketTransportConfig
      → Incoming
      → AppState J.Value
      → HttpResponse × AppState J.Value
  handle_upgrade r cfg req state =
      if axum.accepts_upgrade req
      then answer req (some r.path) cfg.url 101 none
          (axum.upgrade_response cfg.url cfg.timeout_secs)
          (Forwarded.web_socket_opened cfg.url ∷ []) state
      else answer req (some r.path) cfg.url 426 none
          (axum.into_response 426 [] (text "WebSocket upgrade required")) [] state

  unfoldable pub handle_routed :
      RouteConfig → Incoming → AppState J.Value → Option (HttpResponse × AppState J.Value)
  handle_routed r req state = elim (r.transport) [
    | web_socket cfg ↦ some (handle_upgrade r cfg req state)
    | _ ↦ handle_body r req req.body state
  ]

  unfoldable pub handle_request :
      Incoming → AppState J.Value → Option (HttpResponse × AppState J.Value)
  handle_request req state =
      if path_contains_traversal req.path
      then some
          (answer req none [] 400 none (axum.into_response 400 [] (text "Invalid path")) [] state)
      else elim (route router req.method req.path) [
        | none ↦
            some
              (answer req none [] 404 none (axum.into_response 404 [] (text "Not found")) [] state)
        | some r ↦ handle_routed r req state
      ]
