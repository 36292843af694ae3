-- ===== src/Middleware/RateLimit/Passing.antt =====
-- What src/core/middleware/rate_limit.rs answers, whatever the settings.
use iron_babel.Base.{ℕ, ◌≡◌, refl, ◌⊎◌, Bool, true, false, Bool-cases, inl, inr}
use iron_babel.Error.{Error, ok, err}
use iron_babel.Json.{Json}
use iron_babel.Middleware.{Request, MiddlewareConfig}
use iron_babel.Middleware.RateLimit.{Limits, decide, handle_request}

module _ (J : Json) where
  decide-cases :
      (request : Request) (answer : Bool × Limits)
      → ((decide J request answer).0 ≡ ok request)
        ⊎ ((decide J request answer).0 ≡ err Error.rate_limited)
  unfolding decide
  decide-cases request (true, limits) = inr refl
  decide-cases request (false, limits) = inl refl

  pub handle_request-cases :
      (cfg : MiddlewareConfig J.Value) (now : ℕ) (limits : Limits) (request : Request)
      → ((handle_request J cfg now limits request).0 ≡ ok request)
        ⊎ ((handle_request J cfg now limits request).0 ≡ err Error.rate_limited)
  unfolding handle_request
  handle_request-cases cfg now limits request = elim (Bool-cases cfg.enabled) [
    | inl on ↦ rw on (decide-cases request _)
    | inr off ↦ rw off (inl refl)
  ]

  pub handle_request-same :
      (cfg : MiddlewareConfig J.Value) (now : ℕ) (limits : Limits) (request request' : Request)
      → (handle_request J cfg now limits request).0 ≡ ok request'
      → request ≡ request'
  handle_request-same cfg now limits request request' h =
      elim (handle_request-cases cfg now limits request) [ inl passed ↦ cc | inr refused ↦ cc ]
