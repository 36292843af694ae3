-- ===== src/Gateway/Handler/Answers.antt =====
-- `handle_request` of src/core/gateway.rs: its answers, its samples and its calls of the backends.
use iron_babel.Base.{
  ℕ, ◌≡◌, ap, ◌∙◌, ◌⊎◌, inl, inr, false, Option, some, List, [], ◌∷◌, ◌++◌, append_nil,
}
use iron_babel.Text.{Str}
use iron_babel.Error.{ok}
use iron_babel.HttpGuard.{path_contains_traversal}
use iron_babel.Config.Types.{RouteConfig, web_socket, WebSocketTransportConfig}
use iron_babel.Json.{Json}
use iron_babel.Metrics.{RequestLogEntry, record_request, entry_of}
use iron_babel.Router.{Router, route}
use iron_babel.Middleware.{Request}
use iron_babel.Middleware.Chain
use iron_babel.Middleware.Chain.{Middleware}
use iron_babel.Gateway.{
  finalize_response, HttpResponse, Incoming, Axum, Backends, Forwarded, AppState, Times,
}
use iron_babel.Gateway.Handler.{core_request, handle_request}
use iron_babel.Gateway.Handler.Ways.{Handled, refused_early, upgraded, stopped, dispatched}
use iron_babel.Gateway.Handler.Traces.{handle_request-Traced}

module _ (J : Json) (axum : Axum) (backends : Backends) (router : Router) (times : Times) where
  -- A request is answered: one sample of it is recorded, and a backend was called only if `Passed`.
  pub record Answered (Passed : Type 0) (req : Incoming) (state : AppState J.Value)
      (o : Option (HttpResponse × AppState J.Value)) : Type 0 where
    pub response : HttpResponse
    pub after : AppState J.Value
    pub answered : o ≡ some (response, after)
    pub sample : RequestLogEntry
    pub sampled : after.metrics.sent ≡ state.metrics.sent ++ sample ∷ []
    pub of_request : (sample.method ≡ req.method) × (sample.path ≡ req.path)
    pub called : (after.forwarded ≡ state.forwarded) ⊎ Passed

  -- What a request needs for a backend to be called: a path without traversal, a route, and either a
  -- WebSocket route or the consent of the chain.
  abbrev pub Passed : Incoming → AppState J.Value → Type 0
  Passed req state =
      (path_contains_traversal req.path ≡ false)
      × (r : RouteConfig) × (route router req.method req.path ≡ some r)
      × (((cfg : WebSocketTransportConfig) × (r.transport ≡ web_socket cfg))
          ⊎ ((body : Str) × (core : Request) × (req.body ≡ some body)
              × ((Chain.handle_request J state.middleware times.now (core_request r req body)).0
                  ≡ ok core)))

  Handled-Passed :
      (req : Incoming) (state : AppState J.Value) (calls : List Forwarded)
      (chain : List (Middleware J.Value)) (status : ℕ) (raw : HttpResponse)
      → Handled J axum backends router times req state calls chain status raw
      → (calls ≡ []) ⊎ Passed req state
  Handled-Passed req state calls chain status raw (refused_early msg early made nothing kept) =
      inl nothing
  Handled-Passed req state calls chain status raw
        (upgraded r cfg safe found e opened kept at made) =
      inr (safe, r, found, inl (cfg, e))
  Handled-Passed req state calls chain status raw (stopped r body e q nothing left at made) =
      inl nothing
  Handled-Passed req state calls chain status raw
        (dispatched r body core o safe found b q d made left at given) =
      inr (safe, r, found, inr (body, core, b, q))

  -- Every request is answered, and one sample with its method and path is recorded. A backend was
  -- called only if the path has no traversal, a route is found and, unless it is a WebSocket route,
  -- the chain let the request through.
  pub handle_request-Answered :
      (req : Incoming) (state : AppState J.Value)
      → Answered
          (Passed req state)
          req
          state
          (handle_request J axum backends router times req state)
  unfolding record_request entry_of
  handle_request-Answered req state =
      let t = handle_request-Traced J axum backends router times req state in
      record {
        response = finalize_response J axum t.after.middleware t.raw;
        after = t.after;
        answered = t.answered;
        sample = entry_of state.metrics.next_id times.now_ms t.sample;
        sampled = ap (λ m. m.sent) t.recorded;
        of_request = t.of_request;
        called =
            elim (Handled-Passed req state t.calls t.after.middleware t.sample.status_code t.raw
              t.how) [
                | inl nothing ↦ inl (
                    t.called
                    ∙ (ap (λ c. state.forwarded ++ c) nothing ∙ append_nil state.forwarded))
                | inr passed ↦ inr passed
              ];
      }
