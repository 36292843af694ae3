-- ===== src/Gateway/Serving/Counted.antt =====
-- Every request is answered and counted.
use iron_babel.Base.{ℕ, ◌≡◌, some, List, [], ◌∷◌, map, length}
use iron_babel.Text.{Str}
use iron_babel.Json.{Json}
use iron_babel.Router.{Router}
use iron_babel.Metrics
use iron_babel.Metrics.{RequestLogEntry}
use iron_babel.Metrics.Counting.{Recorded}
use iron_babel.Gateway.{HttpResponse, Axum, Backends, AppState}
use iron_babel.Gateway.Serving.{Visit, traffic, admin, serve}

-- The method and path of each request that is not one to the admin pages.
abbrev pub asked_for : List Visit → List (Str × Str)
asked_for [] = []
asked_for (traffic times req ∷ visits) = (req.method, req.path) ∷ asked_for visits
asked_for (admin now page req ∷ visits) = asked_for visits

abbrev pub logged : List RequestLogEntry → List (Str × Str)
logged entries = map (λ e. (e.method, e.path)) entries

module _ (J : Json) (axum : Axum) (backends : Backends) (router : Router) where
  -- All requests are answered, and the metrics afterwards.
  pub record Served (visits : List Visit) (n : ℕ) (sent : List (Str × Str))
      (state : AppState J.Value) : Type 0 where
    pub responses : List HttpResponse
    pub after : AppState J.Value
    pub served : serve J axum backends router visits state ≡ some (responses, after)
    pub one_each : length responses ≡ length visits
    pub in_order : logged after.metrics.sent ≡ sent
    pub recorded : Recorded n after.metrics
