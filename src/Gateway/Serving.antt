-- ===== src/Gateway/Serving.antt =====
-- src/core/gateway.rs: the application that `start` builds, over the requests that reach it. The
-- router of axum decides whether a request is one to the admin pages; the pages see the metrics and
-- change neither them nor the chain.
pub mod Effects
pub mod Counted
pub mod Limited
pub mod Presented
use iron_babel.Base.{ℕ, ◌+◌, Bool, Option, none, some, List, [], ◌∷◌, ltb, if◌then◌else◌}
use iron_babel.Text.{Str}
use iron_babel.Json.{Json}
use iron_babel.Config.Types.{MiddlewareSectionConfig}
use iron_babel.Router.{Router}
use iron_babel.Metrics
use iron_babel.Metrics.{MetricsStore}
use iron_babel.Middleware.Chain.{build_middleware_chain}
use iron_babel.Gateway.{HttpResponse, Incoming, Axum, Backends, Forwarded, AppState, Times}
use iron_babel.Gateway.Handler.{handle_request}
use iron_babel.Gateway.AdminGuard.{admin_middleware}

-- A request with the clocks that it meets; one to the admin pages with the page that is asked for.
pub data Visit : Type 0 where
  traffic : Times → Incoming → Visit
  admin : ℕ → (Incoming → MetricsStore → HttpResponse) → Incoming → Visit

abbrev pub incoming_of : Visit → Incoming
incoming_of (traffic times req) = req
incoming_of (admin now page req) = req

-- The client and the time on the limiter's clock.
abbrev pub stamp : Visit → Str × ℕ
stamp (traffic times req) = (req.remote_addr, times.now)
stamp (admin now page req) = (req.remote_addr, now)

-- The calls of the backends other than WebSocket upgrades, which pass by the chain.
abbrev pub bodied : List Forwarded → ℕ
bodied [] = 0
bodied (Forwarded.web_socket_opened url ∷ calls) = bodied calls
bodied (Forwarded.http_sent r ∷ calls) = 1 + bodied calls
bodied (Forwarded.zmq_sent address body ∷ calls) = 1 + bodied calls
bodied (Forwarded.mqtt_sent cfg body ∷ calls) = 1 + bodied calls
bodied (Forwarded.amqp_sent cfg body ∷ calls) = 1 + bodied calls

module _ (J : Json) (axum : Axum) (backends : Backends) (router : Router) where
  -- The state that `start` hands to the application.
  unfoldable pub initial : MiddlewareSectionConfig → AppState J.Value
  initial section = record {
    metrics = Metrics.new;
    middleware = build_middleware_chain J section;
    forwarded = [];
  }

  unfoldable pub serve_one : Visit → AppState J.Value → Option (HttpResponse × AppState J.Value)
  serve_one (traffic times req) state = handle_request J axum backends router times req state
  serve_one (admin now page req) state =
      some (admin_middleware J axum now (λ r st. (page r st.metrics, st)) req state)

  responded :
      HttpResponse
      → Option (List HttpResponse × AppState J.Value)
      → Option (List HttpResponse × AppState J.Value)
  responded response none = none
  responded response (some (responses, state)) = some (response ∷ responses, state)

  -- The requests one after the other.
  unfoldable pub serve :
      List Visit → AppState J.Value → Option (List HttpResponse × AppState J.Value)
  unfolding responded
  serve [] state = some ([], state)
  serve (a ∷ visits) state = elim (serve_one a state) [
    | none ↦ none
    | some (response, state') ↦ responded response (serve visits state')
  ]

  -- The state after a request.
  unfoldable pub next : Visit → AppState J.Value → AppState J.Value
  next a state = elim (serve_one a state) [ none ↦ state | some (response, state') ↦ state' ]

  abbrev pub acted : AppState J.Value → AppState J.Value → Bool
  acted before after = ltb (bodied before.forwarded) (bodied after.forwarded)

  -- The requests in which a backend is called, WebSocket upgrades apart.
  unfoldable pub reached : List Visit → AppState J.Value → List Visit
  reached [] state = []
  reached (a ∷ visits) state =
      let rest = reached visits (next a state) in
      if acted state (next a state) then a ∷ rest else rest
