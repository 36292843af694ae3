-- ===== src/Gateway/AdminGuard/Refusal.antt =====
-- `admin_middleware` of src/core/gateway.rs at a request that the chain refuses.
use iron_babel.Base.{ℕ, ◌≡◌, refl}
use iron_babel.Error.{Error, Result, ok, err}
use iron_babel.Json.{Json}
use iron_babel.Metrics.{MetricsStore}
use iron_babel.Middleware.{Request}
use iron_babel.Middleware.Chain
use iron_babel.Middleware.Chain.{Middleware}
use iron_babel.Gateway.{HttpResponse, Incoming, Axum, AppState}
use iron_babel.Gateway.AdminGuard.{admin_request, guarded, finalized, refused, admin_middleware}

module _ (J : Json) (axum : Axum) (now : ℕ) where
  abbrev pub Page : Type 0
  Page = Incoming → AppState J.Value → HttpResponse × AppState J.Value

  guarded-err :
      (page other : Page) (req : Incoming) (state : AppState J.Value) (e : Error)
      → guarded J axum now page req state (err e) ≡ guarded J axum now other req state (err e)
  unfolding guarded refused
  guarded-err page other req state (Error.io m) = refl
  guarded-err page other req state (Error.serialization m) = refl
  guarded-err page other req state (Error.yaml m) = refl
  guarded-err page other req state (Error.http m) = refl
  guarded-err page other req state (Error.protocol m) = refl
  guarded-err page other req state (Error.config m) = refl
  guarded-err page other req state (Error.graphql m) = refl
  guarded-err page other req state (Error.unauthorized m) = refl
  guarded-err page other req state Error.rate_limited = refl
  guarded-err page other req state (Error.unknown m) = refl

  guarded-state :
      (page : Incoming → MetricsStore → HttpResponse) (req : Incoming) (state : AppState J.Value)
      (result : Result Request)
      → (guarded J axum now (λ r st. (page r st.metrics, st)) req state result).1 ≡ state
  unfolding guarded refused finalized
  guarded-state page req state (ok request) = refl
  guarded-state page req state (err (Error.io m)) = refl
  guarded-state page req state (err (Error.serialization m)) = refl
  guarded-state page req state (err (Error.yaml m)) = refl
  guarded-state page req state (err (Error.http m)) = refl
  guarded-state page req state (err (Error.protocol m)) = refl
  guarded-state page req state (err (Error.config m)) = refl
  guarded-state page req state (err (Error.graphql m)) = refl
  guarded-state page req state (err (Error.unauthorized m)) = refl
  guarded-state page req state (err Error.rate_limited) = refl
  guarded-state page req state (err (Error.unknown m)) = refl

  -- A page that changes no state leaves what the chain has left.
  pub admin_middleware-state :
      (page : Incoming → MetricsStore → HttpResponse) (req : Incoming) (state : AppState J.Value)
      → (admin_middleware J axum now (λ r st. (page r st.metrics, st)) req state).1 ≡ record {
        metrics = state.metrics;
        middleware = (Chain.handle_request J state.middleware now (admin_request req)).1;
        forwarded = state.forwarded;
      }
  unfolding admin_middleware
  admin_middleware-state page req state = guarded-state page req _ _

  -- If the chain refuses a request to the admin pages, the answer and the state are the same
  -- whatever stands behind the guard: no page is asked.
  pub admin_middleware-err :
      (page other : Page) (req : Incoming) (state : AppState J.Value) (e : Error)
      → (Chain.handle_request J state.middleware now (admin_request req)).0 ≡ err e
      → admin_middleware J axum now page req state ≡ admin_middleware J axum now other req state
  unfolding admin_middleware
  admin_middleware-err page other req state e h =
      rw (h, admin_middleware) (guarded-err page other req _ e)
