-- ===== src/Gateway/Handler/Ways.antt =====
-- The ways through `handle_request` of src/core/gateway.rs: for each the recorded status, the response,
-- the state of the chain and the calls of the backends that it leaves behind.
use iron_babel.Base.{◌≡◌, true, false, Option, none, some, List, [], ◌∷◌, ◌++◌, ℕ}
use iron_babel.Text.{Str, text, decimal}
use iron_babel.Error.{Error, Result, ok, err}
use iron_babel.HttpGuard.{Header, path_contains_traversal}
use iron_babel.Config.Types.{web_socket, RouteConfig, WebSocketTransportConfig}
use iron_babel.Json.{Json}
use iron_babel.Metrics.{Sample, record_request}
use iron_babel.Router.{Router, route}
use iron_babel.Middleware.{Request}
use iron_babel.Middleware.Chain
use iron_babel.Middleware.Chain.{Middleware, rate_limit_window_secs}
use iron_babel.Gateway.{
  HttpResponse, Incoming, Axum, Backends, Forwarded, AppState, Times, set_forwarded_for,
  finalize_response,
}
use iron_babel.Gateway.Dispatch.{Outcome, dispatch}
use iron_babel.Gateway.Handler.{core_request, or_empty, or_minute}

module _ (J : Json) (axum : Axum) (backends : Backends) (router : Router) (times : Times) where
  -- What the chain makes of a request with this route and body.
  abbrev pub chained :
      RouteConfig → Incoming → Str → AppState J.Value → Result Request × List (Middleware J.Value)
  chained r req body state =
      Chain.handle_request J state.middleware times.now (core_request r req body)

  -- The headers that are forwarded of a request that the chain lets through.
  abbrev pub forwarded_headers : Request → List Header
  forwarded_headers core =
      set_forwarded_for core.metadata.headers (or_empty core.metadata.remote_addr)

  -- Why a request is answered before the chain is asked, and with which status.
  pub data Early (req : Incoming) (status : ℕ) : Type 0 where
    bad_path : path_contains_traversal req.path ≡ true → status ≡ 400 → Early req status
    no_route : route router req.method req.path ≡ none → status ≡ 404 → Early req status
    too_large : req.body ≡ none → status ≡ 413 → Early req status
    no_upgrade : axum.accepts_upgrade req ≡ false → status ≡ 426 → Early req status

  -- The status and the response when the chain refuses a request.
  abbrev pub refusal_status : Error → ℕ
  refusal_status (Error.unauthorized msg) = 401
  refusal_status Error.rate_limited = 429
  refusal_status _ = 500

  abbrev pub refusal : List (Middleware J.Value) → Error → HttpResponse
  refusal chain (Error.unauthorized msg) = axum.into_response 401 [] msg
  refusal chain Error.rate_limited =
      axum.into_response 429
        ((text "retry-after", decimal (or_minute (rate_limit_window_secs J chain))) ∷ [])
        (text "Too many requests")
  refusal chain _ = axum.into_response 500 [] []

  -- The ways through the handler, with the calls of the backends, the chain that they leave, and the
  -- status that is recorded and the response before it is finalized.
  pub data Handled (req : Incoming) (state : AppState J.Value) (calls : List Forwarded)
      (chain : List (Middleware J.Value)) (status : ℕ) (raw : HttpResponse) : Type 0 where
    refused_early :
        (msg : Str)
        → Early req status
        → raw ≡ axum.into_response status [] msg
        → calls ≡ []
        → chain ≡ state.middleware
        → Handled req state calls chain status raw
    upgraded :
        (r : RouteConfig) (cfg : WebSocketTransportConfig)
        → path_contains_traversal req.path ≡ false
        → route router req.method req.path ≡ some r
        → r.transport ≡ web_socket cfg
        → calls ≡ Forwarded.web_socket_opened cfg.url ∷ []
        → chain ≡ state.middleware
        → status ≡ 101
        → raw ≡ axum.upgrade_response cfg.url cfg.timeout_secs
        → Handled req state calls chain status raw
    stopped :
        (r : RouteConfig) (body : Str) (e : Error)
        → (chained r req body state).0 ≡ err e
        → calls ≡ []
        → chain ≡ (chained r req body state).1
        → status ≡ refusal_status e
        → raw ≡ refusal chain e
        → Handled req state calls chain status raw
    dispatched :
        (r : RouteConfig) (body : Str) (core : Request) (o : Outcome)
        → path_contains_traversal req.path ≡ false
        → route router req.method req.path ≡ some r
        → req.body ≡ some body
        → (chained r req body state).0 ≡ ok core
        → dispatch axum backends J r req (forwarded_headers core) core.body ≡ some o
        → calls ≡ o.forwarded
        → chain ≡ (chained r req body state).1
        → status ≡ o.status
        → raw ≡ o.response
        → Handled req state calls chain status raw

  -- A request is answered, one sample of it is recorded, and `P` holds of the calls of the backends,
  -- of the chain afterwards, and of the recorded status and the response before it is finalized.
  pub record Traced (P : List Forwarded → List (Middleware J.Value) → ℕ → HttpResponse → Type 0)
      (req : Incoming) (state : AppState J.Value) (o : Option (HttpResponse × AppState J.Value))
      : Type 0 where
    pub raw : HttpResponse
    pub after : AppState J.Value
    pub answered : o ≡ some (finalize_response J axum after.middleware raw, after)
    pub sample : Sample
    pub recorded : after.metrics ≡ record_request times.now_ms sample state.metrics
    pub of_request : (sample.method ≡ req.method) × (sample.path ≡ req.path)
    pub calls : List Forwarded
    pub called : after.forwarded ≡ state.forwarded ++ calls
    pub how : P calls after.middleware sample.status_code raw
