-- ===== src/Gateway/Serving/Limited.antt =====
-- The limiter in front of the whole gateway: how many requests of a client reach a backend.
use iron_babel.Base.{ℕ, ◌≡◌, ◌⊎◌, true, false, List, [], ◌∷◌, ◌++◌}
use iron_babel.Error.{Error, ok, err}
use iron_babel.Json.{Json, JsonLaws}
use iron_babel.Config.Types.{MiddlewareSectionConfig}
use iron_babel.Router.{Router}
use iron_babel.Middleware.{Request}
use iron_babel.Middleware.Chain
use iron_babel.Middleware.Chain.{chain_of}
use iron_babel.Middleware.RateLimit.{Limits}
use iron_babel.Middleware.RateLimit.Configured.{limit_of, window_of}
use iron_babel.Middleware.RateLimit.Window.{Log}
use iron_babel.Middleware.RateLimit.Refines.Admission.{Ledger}
use iron_babel.Gateway.{Axum, Backends, AppState}
use iron_babel.Gateway.Serving.{Visit, stamp, acted}

module _ (J : Json) (laws : JsonLaws J) (axum : Axum) (backends : Backends) (router : Router)
    (section : MiddlewareSectionConfig) (on : section.rate_limit.enabled ≡ true) where
  -- The configured limit, of which `as u32` keeps the low 32 bits, and window.
  abbrev pub limit : ℕ
  limit = limit_of section.rate_limit.requests_per_window

  abbrev pub window : ℕ
  window = window_of section.rate_limit.window_secs

  -- The state after a request, with the requests that were acted on.
  record Kept (a : Visit) (got : Log) (before after : AppState J.Value) : Type 0 where
    limits : Limits
    chain : after.middleware ≡ chain_of J section limits
    ledger :
        ((acted J axum backends router before after ≡ false)
          × Ledger limit window (stamp a).1 limits got)
        ⊎ ((acted J axum backends router before after ≡ true)
            × Ledger limit window (stamp a).1 limits (got ++ stamp a ∷ []))

  not_both : (request : Request) (e : Error) → ok request ≡ err e → ⊥
  not_both request e h = cc
