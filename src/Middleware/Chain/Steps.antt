-- ===== src/Middleware/Chain/Steps.antt =====
-- One request through the gateway's chain: the answer and the limiter's map afterwards.
use iron_babel.Base.{
  Bool, true, false, Option, some, ℕ, ◌≡◌, refl, ◌∙◌, ap, inl, inr, List, [], ◌∷◌, subst,
}
use iron_babel.Text.{Str}
use iron_babel.Error.{Error, Result, ok, err}
use iron_babel.Json.{Json, JsonLaws}
use iron_babel.Config.Types.{MiddlewareSectionConfig}
use iron_babel.Middleware.{Request, MiddlewareConfig}
use iron_babel.Middleware.Auth
use iron_babel.Middleware.RateLimit
use iron_babel.Middleware.RateLimit.{Limits, is_rate_limited, client_key}
use iron_babel.Middleware.RateLimit.Configured.{
  Limited, handle_request-Limited, limit_of, window_of,
}
use iron_babel.Middleware.Chain.{
  Middleware, middleware_request, handle_request, chain_of, with_limits,
}
use iron_babel.Middleware.Chain.Outcomes.{step_ok, step_err}

module _ (J : Json) (laws : JsonLaws J) where
  -- The limiter alone.
  limiter_lem :
      (cfg : MiddlewareConfig J.Value) (now : ℕ) (limits : Limits) (request : Request)
      (answer : Result Request × Limits)
      → RateLimit.handle_request J cfg now limits request ≡ answer
      → handle_request J (Middleware.rate_limit cfg limits ∷ []) now request
        ≡ (answer.0, Middleware.rate_limit cfg answer.1 ∷ [])
  unfolding middleware_request with_limits handle_request
  limiter_lem cfg now limits request (ok passed, left) e =
      step_ok J (Middleware.rate_limit cfg limits) [] now request passed (ap (λ p. p.0) e)
      ∙ ap (λ (p : Result Request × Limits). (ok passed, Middleware.rate_limit cfg p.1 ∷ [])) e
  limiter_lem cfg now limits request (err x, left) e =
      step_err J (Middleware.rate_limit cfg limits) [] now request x (ap (λ p. p.0) e)
      ∙ ap (λ (p : Result Request × Limits). (err x, Middleware.rate_limit cfg p.1 ∷ [])) e

  abbrev three :
      MiddlewareConfig J.Value
      → MiddlewareConfig J.Value
      → MiddlewareConfig J.Value
      → Limits
      → List (Middleware J.Value)
  three l a r limits =
      Middleware.logging l ∷ Middleware.auth a ∷ Middleware.rate_limit r limits ∷ []

  after_logging :
      (l a r : MiddlewareConfig J.Value) (now : ℕ) (limits : Limits) (request : Request)
      (answer : Result Request × List (Middleware J.Value))
      → handle_request J (Middleware.auth a ∷ Middleware.rate_limit r limits ∷ []) now request
        ≡ answer
      → handle_request J (three l a r limits) now request
        ≡ (answer.0, Middleware.logging l ∷ answer.1)
  unfolding middleware_request
  after_logging l a r now limits request answer e =
      step_ok J (Middleware.logging l) (Middleware.auth a ∷ Middleware.rate_limit r limits ∷ []) now
        request request refl
      ∙ ap (λ (p : Result Request × List (Middleware J.Value)). (p.0, Middleware.logging l ∷ p.1)) e

  passed_lem :
      (l a r : MiddlewareConfig J.Value) (now : ℕ) (limits : Limits) (request : Request)
      → Auth.handle_request J a request ≡ ok request
      → handle_request J (three l a r limits) now request ≡ (
        (RateLimit.handle_request J r now limits request).0,
        three l a r (RateLimit.handle_request J r now limits request).1,
      )
  unfolding middleware_request
  passed_lem l a r now limits request passed = after_logging l a r now limits request _ (
      step_ok J (Middleware.auth a) (Middleware.rate_limit r limits ∷ []) now request request passed
      ∙ ap (λ (p : Result Request × List (Middleware J.Value)). (p.0, Middleware.auth a ∷ p.1))
          (limiter_lem r now limits request _ refl))

  refused_lem :
      (l a r : MiddlewareConfig J.Value) (now : ℕ) (limits : Limits) (request : Request) (e : Error)
      → Auth.handle_request J a request ≡ err e
      → handle_request J (three l a r limits) now request ≡ (err e, three l a r limits)
  unfolding middleware_request
  refused_lem l a r now limits request e refused =
      after_logging l a r now limits request _
        (step_err J (Middleware.auth a) (Middleware.rate_limit r limits ∷ []) now request e refused)

  -- The token check refuses, and the limiter is not asked, or the limiter has the last word.
  pub data ChainStep (section : MiddlewareSectionConfig) (limits : Limits) (now : ℕ)
      (request : Request) (answer : Result Request × List (Middleware J.Value)) : Type 0 where
    unauthorized :
        (msg : Str)
        → answer ≡ (err (Error.unauthorized msg), chain_of J section limits)
        → ChainStep section limits now request answer
    asked :
        (decision : Result Request × Limits)
        → Limited J laws section.rate_limit.enabled section.rate_limit.requests_per_window
            section.rate_limit.window_secs now limits request decision
        → answer ≡ (decision.0, chain_of J section decision.1)
        → ChainStep section limits now request answer

  pub handle_request-ChainStep :
      (section : MiddlewareSectionConfig) (limits : Limits) (now : ℕ) (request : Request)
      → ChainStep section limits now request
          (handle_request J (chain_of J section limits) now request)
  unfolding chain_of
  handle_request-ChainStep section limits now request =
      elim (Auth.Passing.handle_request-cases J _ request) [
        | inl passed ↦
            asked _
              (handle_request-Limited J laws section.rate_limit.enabled
                section.rate_limit.requests_per_window section.rate_limit.window_secs now limits
                request)
              (passed_lem _ _ _ now limits request passed)
        | inr (msg, refused) ↦
            unauthorized msg (refused_lem _ _ _ now limits request (Error.unauthorized msg) refused)
      ]

  -- With the limiter enabled, at the address of the client: `decision` is the limiter's.
  pub data Verdict (section : MiddlewareSectionConfig) (limits : Limits) (decision : Bool × Limits)
      (answer : Result Request × List (Middleware J.Value)) : Type 0 where
    unasked :
        (e : Error)
        → answer.0 ≡ err e
        → answer.1 ≡ chain_of J section limits
        → Verdict section limits decision answer
    over :
        (e : Error)
        → decision.0 ≡ true
        → answer.0 ≡ err e
        → answer.1 ≡ chain_of J section decision.1
        → Verdict section limits decision answer
    within :
        decision.0 ≡ false
        → answer.1 ≡ chain_of J section decision.1
        → Verdict section limits decision answer

  abbrev pub decision_at : MiddlewareSectionConfig → ℕ → Limits → Str → Bool × Limits
  decision_at section now limits addr =
      is_rate_limited addr (limit_of section.rate_limit.requests_per_window)
        (window_of section.rate_limit.window_secs) now limits

  ChainStep-Verdict :
      (section : MiddlewareSectionConfig) (limits : Limits) (now : ℕ) (request : Request)
      (answer : Result Request × List (Middleware J.Value))
      → section.rate_limit.enabled ≡ true
      → ChainStep section limits now request answer
      → Verdict section limits
          (decision_at section now limits (client_key J request.metadata.remote_addr))
          answer
  ChainStep-Verdict section limits now request answer on (unauthorized msg e) =
      Verdict.unasked (Error.unauthorized msg) (ap (λ p. p.0) e) (ap (λ p. p.1) e)
  ChainStep-Verdict section limits now request answer on
        (asked decision (Limited.off disabled d) e) =
      absurd (cc (on, disabled))
  ChainStep-Verdict section limits now request answer on
        (asked decision (Limited.over _ many d) e) =
      Verdict.over Error.rate_limited many (ap (λ p. p.0) e ∙ ap (λ p. p.0) d)
        (ap (λ p. p.1) e ∙ ap (λ (p : Result Request × Limits). chain_of J section p.1) d)
  ChainStep-Verdict section limits now request answer on
        (asked decision (Limited.within _ few d) e) =
      Verdict.within few
        (ap (λ p. p.1) e ∙ ap (λ (p : Result Request × Limits). chain_of J section p.1) d)

  -- What the chain decides of a request, and the map that it leaves.
  pub handle_request-Verdict :
      (section : MiddlewareSectionConfig) (limits : Limits) (now : ℕ) (request : Request)
      (addr : Str)
      → section.rate_limit.enabled ≡ true
      → request.metadata.remote_addr ≡ some addr
      → Verdict section limits
          (decision_at section now limits addr)
          (handle_request J (chain_of J section limits) now request)
  unfolding client_key
  handle_request-Verdict section limits now request addr on from =
      subst
        (λ (o : Option Str).
          Verdict section limits (decision_at section now limits (client_key J o))
            (handle_request J (chain_of J section limits) now request))
        from
        (ChainStep-Verdict section limits now request _ on
          (handle_request-ChainStep section limits now request))

  -- A request changes nothing of the chain but the limiter's map.
  pub handle_request-chain_of :
      (section : MiddlewareSectionConfig) (limits : Limits) (now : ℕ) (request : Request)
      → (left : Limits) × ((handle_request J (chain_of J section limits) now request).1
          ≡ chain_of J section left)
  handle_request-chain_of section limits now request =
      elim (handle_request-ChainStep section limits now request) [
        | unauthorized msg e ↦ (limits, ap (λ p. p.1) e)
        | asked decision limited e ↦ (decision.1, ap (λ p. p.1) e)
      ]
