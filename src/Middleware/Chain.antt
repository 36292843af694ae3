-- ===== src/Middleware/Chain.antt =====
-- src/core/middleware/mod.rs, src/core/middleware/logging.rs and `build_middleware_chain` of
-- src/core/gateway.rs: the chain. A rate limiter carries its map of clients, so a request gives the
-- chain as it is afterwards; log lines are left out. `now` is the clock as the limiter reads it.
pub mod Outcomes
pub mod RetryAfter
pub mod Authorized
pub mod Steps
use iron_babel.Base.{ℕ, Bool, not, Option, none, some, List, [], ◌∷◌, ◌++◌, map, if◌then◌else◌}
use iron_babel.Text.{Str, text}
use iron_babel.Error.{Error, Result, ok, err, ◌>>=◌}
use iron_babel.Json.{Json}
use iron_babel.Config.Types.{MiddlewareSectionConfig}
use iron_babel.Middleware.{Request, Response, MiddlewareConfig}
use iron_babel.Middleware.Auth
use iron_babel.Middleware.RateLimit
use iron_babel.Middleware.RateLimit.{Limits, setting}

-- `Arc<dyn Middleware>`, by its implementation.
pub data Middleware (V : Type 0) : Type 0 where
  logging : MiddlewareConfig V → Middleware V
  auth : MiddlewareConfig V → Middleware V
  rate_limit : MiddlewareConfig V → Limits → Middleware V

module _ (J : Json) where
  unfoldable pub config : Middleware J.Value → MiddlewareConfig J.Value
  config (Middleware.logging cfg) = cfg
  config (Middleware.auth cfg) = cfg
  config (Middleware.rate_limit cfg limits) = cfg

  with_limits :
      MiddlewareConfig J.Value → Result Request × Limits → Result Request × Middleware J.Value
  with_limits cfg (result, limits) = (result, Middleware.rate_limit cfg limits)

  unfoldable pub middleware_request :
      Middleware J.Value → ℕ → Request → Result Request × Middleware J.Value
  unfolding with_limits
  middleware_request (Middleware.logging cfg) now request = (ok request, Middleware.logging cfg)
  middleware_request (Middleware.auth cfg) now request =
      (Auth.handle_request J cfg request, Middleware.auth cfg)
  middleware_request (Middleware.rate_limit cfg limits) now request =
      with_limits cfg (RateLimit.handle_request J cfg now limits request)

  -- No middleware changes a response.
  unfoldable pub middleware_response : Middleware J.Value → Response → Result Response
  middleware_response m response = ok response

  -- `MiddlewareChain::handle_request`; `?` leaves the middlewares behind the refusing one untouched.
  unfoldable pub handle_request :
      List (Middleware J.Value) → ℕ → Request → Result Request × List (Middleware J.Value)
  handle_request [] now request = (ok request, [])
  handle_request (m ∷ ms) now request = elim ((middleware_request m now request).0) [
    | ok request' ↦
        let rest = handle_request ms now request' in
        (rest.0, (middleware_request m now request).1 ∷ rest.1)
    | err e ↦ (err e, (middleware_request m now request).1 ∷ ms)
  ]

  -- `MiddlewareChain::handle_response`: the last middleware first.
  unfoldable pub handle_response : List (Middleware J.Value) → Response → Result Response
  handle_response [] response = ok response
  handle_response (m ∷ ms) response = do
    response' ← handle_response ms response
    middleware_response m response'

  window_secs : MiddlewareConfig J.Value → Option ℕ
  window_secs cfg = if not cfg.enabled then none else setting J cfg.settings (text "window_secs")

  -- `find_map`
  unfoldable pub rate_limit_window_secs : List (Middleware J.Value) → Option ℕ
  unfolding window_secs config
  rate_limit_window_secs [] = none
  rate_limit_window_secs (m ∷ ms) = elim (window_secs (config m)) [
    | none ↦ rate_limit_window_secs ms
    | some n ↦ some n
  ]

  -- The chain over a given map of clients; `build_middleware_chain` starts with the empty one.
  unfoldable pub chain_of : MiddlewareSectionConfig → Limits → List (Middleware J.Value)
  chain_of section limits =
      Middleware.logging (record { enabled = section.logging.enabled; settings = J.object [] })
      ∷ Middleware.auth (record {
        enabled = section.auth.enabled;
        settings = J.object ((text "api_keys", J.array (map J.string section.auth.api_keys)) ∷ []);
      })
      ∷ Middleware.rate_limit
          (record {
            enabled = section.rate_limit.enabled;
            settings = J.object (
                (text "requests_per_window", J.number section.rate_limit.requests_per_window)
                ∷ (text "window_secs", J.number section.rate_limit.window_secs)
                ∷ []);
          })
          limits
      ∷ []

  unfoldable pub build_middleware_chain : MiddlewareSectionConfig → List (Middleware J.Value)
  build_middleware_chain section = chain_of section []
