-- ===== src/Middleware/Chain/Authorized.antt =====
-- The gateway's chain with the token check enabled.
use iron_babel.Base.{ℕ, ◌≡◌, refl, ap, subst, inl, inr, true, List, [], ◌∷◌, All}
use iron_babel.Text.{Str, text}
use iron_babel.Error.{Error, ok}
use iron_babel.Json.{Json, JsonLaws}
use iron_babel.Grpc.Bytes.{IsByte}
use iron_babel.Config.Types.{MiddlewareSectionConfig}
use iron_babel.Middleware.{Request, MiddlewareConfig}
use iron_babel.Middleware.Auth
use iron_babel.Middleware.Auth.Tokens.{key_settings, settings_with, Presents}
use iron_babel.Middleware.RateLimit.{Limits}
use iron_babel.Middleware.Chain.{Middleware, middleware_request, handle_request, chain_of}
use iron_babel.Middleware.Chain.Outcomes.{step_ok, step_err}

module _ (J : Json) (laws : JsonLaws J) where
  auth_passed :
      (l a r : MiddlewareConfig J.Value) (limits : Limits) (now : ℕ) (request core : Request)
      → (handle_request J
          (Middleware.logging l ∷ Middleware.auth a ∷ Middleware.rate_limit r limits ∷ [])
          now
          request).0
        ≡ ok core
      → Auth.handle_request J a request ≡ ok request
  unfolding middleware_request
  auth_passed l a r limits now request core h =
      elim (Auth.Passing.handle_request-cases J a request) [
        | inl passed ↦ passed
        | inr (msg, refused) ↦
            let rest = Middleware.auth a ∷ Middleware.rate_limit r limits ∷ [] in
            let logged = step_ok J (Middleware.logging l) rest now request request refl in
            let stopped =
              step_err J (Middleware.auth a) (Middleware.rate_limit r limits ∷ []) now request
                (Error.unauthorized msg) refused in
            absurd (cc (h, ap (λ p. p.0) logged, ap (λ p. p.0) stopped))
      ]

  -- If the token check is enabled and keys are configured, whatever the limiter's state, a request
  -- that the chain lets through has as its first authorization header "Bearer " and one of the keys.
  pub chain_of-Presents :
      (section : MiddlewareSectionConfig) (key : Str) (keys : List Str) (limits : Limits) (now : ℕ)
      (request core : Request)
      → section.auth ≡ record { enabled = true; api_keys = key ∷ keys }
      → All (λ h. All IsByte h.1) request.metadata.headers
      → All (All IsByte) (key ∷ keys)
      → (handle_request J (chain_of J section limits) now request).0 ≡ ok core
      → Presents J laws
          (key ∷ keys)
          (Auth.find_header (text "authorization") request.metadata.headers)
  unfolding chain_of
  chain_of-Presents section key keys limits now request core on hh hk h =
      let passed = auth_passed _ _ _ limits now request core h in
      let configured =
        subst
          (λ a.
            Auth.handle_request J
              (record { enabled = a.enabled; settings = key_settings J laws a.api_keys }) request
            ≡ ok request)
          on passed in
      ((Auth.Tokens.handle_request-ok_iff J laws key keys request request hh hk).0 configured).1
