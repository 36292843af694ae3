-- ===== src/Gateway/AdminGuard.antt =====
-- src/core/gateway.rs: `admin_middleware`, the chain in front of the admin pages. `next` is what
-- handles the request behind it.
pub mod Refusal
use iron_babel.Base.{ℕ, none, some, []}
use iron_babel.Text.{Str, text}
use iron_babel.Error.{Error, Result, ok, err}
use iron_babel.Json.{Json}
use iron_babel.Middleware.{Request}
use iron_babel.Middleware.Chain
use iron_babel.Middleware.Chain.{Middleware}
use iron_babel.Gateway.{HttpResponse, Incoming, Axum, AppState, finalize_response}

unfoldable pub admin_request : Incoming → Request
admin_request req = record {
  body = [];
  metadata = record {
    protocol = text "http";
    method = none;
    path = none;
    headers = req.headers;
    timeout = none;
    remote_addr = some req.remote_addr;
  };
}

module _ (J : Json) (axum : Axum) (now : ℕ)
    (next : Incoming → AppState J.Value → HttpResponse × AppState J.Value) where
  finalized : HttpResponse × AppState J.Value → HttpResponse × AppState J.Value
  finalized (response, state) = (finalize_response J axum state.middleware response, state)

  refused : ℕ → Str → AppState J.Value → HttpResponse × AppState J.Value
  refused status msg state =
      (finalize_response J axum state.middleware (axum.into_response status [] msg), state)

  guarded : Incoming → AppState J.Value → Result Request → HttpResponse × AppState J.Value
  guarded req state (ok _) = finalized (next req state)
  guarded req state (err (Error.unauthorized msg)) = refused 401 msg state
  guarded req state (err Error.rate_limited) = refused 429 (text "Too many requests") state
  guarded req state (err e) = refused 500 [] state

  unfoldable pub admin_middleware : Incoming → AppState J.Value → HttpResponse × AppState J.Value
  unfolding guarded finalized refused
  admin_middleware req state =
      let (result, middleware) = Chain.handle_request J state.middleware now (admin_request req) in
      guarded req
        (record { metrics = state.metrics; middleware = middleware; forwarded = state.forwarded })
        result
