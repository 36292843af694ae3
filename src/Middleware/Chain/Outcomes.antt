-- ===== src/Middleware/Chain/Outcomes.antt =====
-- What the chain answers, and what it does to its state.
use iron_babel.Base.{ℕ, ◌≡◌, refl, ◌∙◌, ap, ◌⊎◌, inl, inr, List, [], ◌∷◌}
use iron_babel.Text.{Str}
use iron_babel.Error.{Error, Result, ok, err, Result-cases}
use iron_babel.Json.{Json}
use iron_babel.Config.Types.{MiddlewareSectionConfig}
use iron_babel.Middleware.{Request, Response, MiddlewareConfig}
use iron_babel.Middleware.Auth
use iron_babel.Middleware.RateLimit
use iron_babel.Middleware.RateLimit.{Limits, setting, is_rate_limited}
use iron_babel.Middleware.Chain.{
  Middleware, middleware_request, middleware_response, handle_request, handle_response, chain_of,
  with_limits,
}

module _ (J : Json) where
  -- A middleware lets a request pass as it is or refuses it.
  middleware_request-same :
      (m : Middleware J.Value) (now : ℕ) (request request' : Request)
      → (middleware_request J m now request).0 ≡ ok request'
      → request ≡ request'
  unfolding middleware_request with_limits
  middleware_request-same (Middleware.logging cfg) now request request' h = cc
  middleware_request-same (Middleware.auth cfg) now request request' h =
      Auth.Passing.handle_request-same J cfg request request' h
  middleware_request-same (Middleware.rate_limit cfg limits) now request request' h =
      RateLimit.Passing.handle_request-same J cfg now limits request request' h

  pub handle_response_same :
      (ms : List (Middleware J.Value)) (response : Response)
      → handle_response J ms response ≡ ok response
  unfolding handle_response middleware_response
  handle_response_same [] response = refl
  handle_response_same (m ∷ ms) response = rw (handle_response_same ms response) refl

  pub step_ok :
      (m : Middleware J.Value) (ms : List (Middleware J.Value)) (now : ℕ)
      (request request' : Request)
      → (middleware_request J m now request).0 ≡ ok request'
      → handle_request J (m ∷ ms) now request ≡ (
        (handle_request J ms now request').0,
        (middleware_request J m now request).1 ∷ (handle_request J ms now request').1,
      )
  unfolding handle_request
  step_ok m ms now request request' h = rw (h, handle_request) refl

  pub step_err :
      (m : Middleware J.Value) (ms : List (Middleware J.Value)) (now : ℕ) (request : Request)
      (e : Error)
      → (middleware_request J m now request).0 ≡ err e
      → handle_request J (m ∷ ms) now request ≡ (err e, (middleware_request J m now request).1 ∷ ms)
  unfolding handle_request
  step_err m ms now request e h = rw (h, handle_request) refl

  -- A chain that lets a request pass gives it back as it came.
  pub handle_request-same :
      (ms : List (Middleware J.Value)) (now : ℕ) (request request' : Request)
      → (handle_request J ms now request).0 ≡ ok request'
      → request ≡ request'
  unfolding handle_request
  handle_request-same [] now request request' h = cc
  handle_request-same (m ∷ ms) now request request' h =
      elim (Result-cases (middleware_request J m now request).0) [
        | inl (passed, e) ↦
            middleware_request-same m now request passed e
            ∙ handle_request-same ms now passed request' (rw (e, handle_request) at h)
        | inr (refusal, e) ↦ cc (rw (e, handle_request) at h)
      ]

  abbrev pub Outcome :
      List (Middleware J.Value) → Request → Result Request × List (Middleware J.Value) → Type 0
  Outcome ms request answer =
      (answer.0 ≡ ok request)
      ⊎ ((answer.0 ≡ err Error.rate_limited)
          ⊎ ((msg : Str) × (answer.0 ≡ err (Error.unauthorized msg)) × (answer.1 ≡ ms)))

  limiter-cases :
      (cfg : MiddlewareConfig J.Value) (limits : Limits) (now : ℕ) (request : Request)
      → ((handle_request J (Middleware.rate_limit cfg limits ∷ []) now request).0 ≡ ok request)
        ⊎ ((handle_request J (Middleware.rate_limit cfg limits ∷ []) now request).0
            ≡ err Error.rate_limited)
  unfolding middleware_request with_limits handle_request
  limiter-cases cfg limits now request =
      elim (RateLimit.Passing.handle_request-cases J cfg now limits request) [
        | inl passed ↦ inl (
            ap (λ p. p.0)
              (step_ok (Middleware.rate_limit cfg limits) [] now request request passed))
        | inr over ↦ inr (
            ap (λ p. p.0)
              (step_err (Middleware.rate_limit cfg limits) [] now request Error.rate_limited over))
      ]

  three-Outcome :
      (l a r : MiddlewareConfig J.Value) (limits : Limits) (now : ℕ) (request : Request)
      → Outcome
          (Middleware.logging l ∷ Middleware.auth a ∷ Middleware.rate_limit r limits ∷ [])
          request
          (handle_request J
            (Middleware.logging l ∷ Middleware.auth a ∷ Middleware.rate_limit r limits ∷ [])
            now
            request)
  unfolding middleware_request
  three-Outcome l a r limits now request =
      let logged =
        step_ok (Middleware.logging l) (Middleware.auth a ∷ Middleware.rate_limit r limits ∷ []) now
          request request refl in
      elim (Auth.Passing.handle_request-cases J a request) [
        | inl passed ↦
            let checked =
              step_ok (Middleware.auth a) (Middleware.rate_limit r limits ∷ []) now request request
                passed in
            rw (logged, checked)
              (elim (limiter-cases r limits now request) [
                | inl in_limit ↦ inl in_limit
                | inr over ↦ inr (inl over)
              ])
        | inr (msg, refused) ↦
            let stopped =
              step_err (Middleware.auth a) (Middleware.rate_limit r limits ∷ []) now request
                (Error.unauthorized msg) refused in
            rw (logged, stopped) (inr (inr (msg, refl, refl)))
      ]

  -- What the gateway's chain answers: the request as it came, a refusal by the limiter, or one by
  -- the token check, and this last leaves the chain, the limiter's map included, as it was.
  pub chain_of-Outcome :
      (section : MiddlewareSectionConfig) (limits : Limits) (now : ℕ) (request : Request)
      → Outcome
          (chain_of J section limits)
          request
          (handle_request J (chain_of J section limits) now request)
  unfolding chain_of
  chain_of-Outcome section limits now request = three-Outcome _ _ _ limits now request
