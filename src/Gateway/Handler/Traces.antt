-- ===== src/Gateway/Handler/Traces.antt =====
-- Every request that reaches `handle_request` of src/core/gateway.rs goes one of the ways.
use iron_babel.Base.{
  ◌≡◌, refl, false, Option, none, some, List, [], Bool-cases, Option-cases, ℕ, inl, inr,
}
use iron_babel.Text.{Str}
use iron_babel.Error.{Error, Result, ok, err}
use iron_babel.HttpGuard.{Header, path_contains_traversal}
use iron_babel.Config.Types.{
  TransportConfig, http, zmq, graphql, grpc, web_socket, mqtt, amqp, RouteConfig,
  WebSocketTransportConfig,
}
use iron_babel.Json.{Json}
use iron_babel.Router.{Router, route}
use iron_babel.Middleware.{Request}
use iron_babel.Middleware.Chain.{Middleware}
use iron_babel.Gateway.{HttpResponse, Incoming, Axum, Backends, Forwarded, AppState, Times}
use iron_babel.Gateway.Dispatch.{Outcome, dispatch}
use iron_babel.Gateway.Handler.{
  or_empty, or_minute, answer, answer_outcome, after_middleware, through_chain, handle_body,
  handle_upgrade, handle_routed, handle_request,
}
use iron_babel.Gateway.Handler.Ways.{
  chained, forwarded_headers, Early, refusal_status, refusal, Handled, Traced, refused_early,
  upgraded, stopped, dispatched,
}

abbrev IsBodied : TransportConfig → Type 0
IsBodied (web_socket _) = ⊥
IsBodied _ = Unit

module _ (J : Json) (axum : Axum) (backends : Backends) (router : Router) (times : Times) where
  module _ (P : List Forwarded → List (Middleware J.Value) → ℕ → HttpResponse → Type 0)
      (req : Incoming) (state : AppState J.Value) where
    abbrev with_chain : List (Middleware J.Value) → AppState J.Value
    with_chain chain = record {
      metrics = state.metrics;
      middleware = chain;
      forwarded = state.forwarded;
    }

    answer-Traced :
        (matched : Option Str) (target : Str) (status : ℕ) (error : Option Str)
        (response : HttpResponse) (calls : List Forwarded) (chain : List (Middleware J.Value))
        → P calls chain status response
        → Traced J axum backends router times P req state (
            some (
              answer J axum backends router times req matched target status error response calls
                (with_chain chain)))
    unfolding answer
    answer-Traced matched target status error response calls chain h = record {
      raw = response;
      after = _;
      answered = refl;
      sample = _;
      recorded = refl;
      of_request = (refl, refl);
      calls = calls;
      called = refl;
      how = h;
    }

    dispatch-some :
        (r : RouteConfig) (t : TransportConfig) (headers : List Header) (body : Str)
        → r.transport ≡ t
        → IsBodied t
        → (o : Outcome) × (dispatch axum backends J r req headers body ≡ some o)
    unfolding dispatch
    dispatch-some r (http cfg) headers body e h = rw (e, dispatch) (_, refl)
    dispatch-some r (zmq cfg) headers body e h = rw (e, dispatch) (_, refl)
    dispatch-some r (graphql cfg) headers body e h = rw (e, dispatch) (_, refl)
    dispatch-some r (grpc cfg) headers body e h = rw (e, dispatch) (_, refl)
    dispatch-some r (mqtt cfg) headers body e h = rw (e, dispatch) (_, refl)
    dispatch-some r (amqp cfg) headers body e h = rw (e, dispatch) (_, refl)
    dispatch-some r (web_socket cfg) headers body e h = absurd h

    refusal-Traced :
        (r : RouteConfig) (chain : List (Middleware J.Value)) (e : Error)
        → P [] chain
            (refusal_status J axum backends router times e)
            (refusal J axum backends router times chain e)
        → Traced J axum backends router times P req state
            (after_middleware J axum backends router times r req (with_chain chain) (err e))
    unfolding after_middleware or_minute or_empty
    refusal-Traced r chain (Error.io m) h = answer-Traced _ _ _ _ _ [] chain h
    refusal-Traced r chain (Error.serialization m) h = answer-Traced _ _ _ _ _ [] chain h
    refusal-Traced r chain (Error.yaml m) h = answer-Traced _ _ _ _ _ [] chain h
    refusal-Traced r chain (Error.http m) h = answer-Traced _ _ _ _ _ [] chain h
    refusal-Traced r chain (Error.protocol m) h = answer-Traced _ _ _ _ _ [] chain h
    refusal-Traced r chain (Error.config m) h = answer-Traced _ _ _ _ _ [] chain h
    refusal-Traced r chain (Error.graphql m) h = answer-Traced _ _ _ _ _ [] chain h
    refusal-Traced r chain (Error.unauthorized m) h = answer-Traced _ _ _ _ _ [] chain h
    refusal-Traced r chain Error.rate_limited h = answer-Traced _ _ _ _ _ [] chain h
    refusal-Traced r chain (Error.unknown m) h = answer-Traced _ _ _ _ _ [] chain h

    after_middleware-Traced :
        (r : RouteConfig) (t : TransportConfig) (chain : List (Middleware J.Value))
        (result : Result Request)
        → r.transport ≡ t
        → IsBodied t
        → ((core : Request) (o : Outcome)
            → result ≡ ok core
            → dispatch axum backends J r req
                (forwarded_headers J axum backends router times core)
                core.body
              ≡ some o
            → P o.forwarded chain o.status o.response)
        → ((e : Error)
            → result ≡ err e
            → P [] chain
                (refusal_status J axum backends router times e)
                (refusal J axum backends router times chain e))
        → Traced J axum backends router times P req state
            (after_middleware J axum backends router times r req (with_chain chain) result)
    unfolding after_middleware answer_outcome
    after_middleware-Traced r t chain (ok core) e h passed refused =
        let (o, d) =
          dispatch-some r t (forwarded_headers J axum backends router times core) core.body e h in
        rw d (answer-Traced _ _ _ _ _ o.forwarded chain (passed core o refl d))
    after_middleware-Traced r t chain (err x) e h passed refused =
        refusal-Traced r chain x (refused x refl)

  module _ (req : Incoming) (state : AppState J.Value) where
    handle_body-Traced :
        (r : RouteConfig) (t : TransportConfig) (b : Option Str)
        → r.transport ≡ t
        → IsBodied t
        → path_contains_traversal req.path ≡ false
        → route router req.method req.path ≡ some r
        → req.body ≡ b
        → Traced J axum backends router times
            (Handled J axum backends router times req state)
            req
            state
            (handle_body J axum backends router times r req b state)
    unfolding handle_body through_chain
    handle_body-Traced r t none e h safe found is_body =
        answer-Traced (Handled J axum backends router times req state) req state _ _ _ _ _ []
          state.middleware (refused_early _ (Early.too_large is_body refl) refl refl refl)
    handle_body-Traced r t (some body) e h safe found is_body =
        after_middleware-Traced (Handled J axum backends router times req state) req state r t
          (chained J axum backends router times r req body state).1
          (chained J axum backends router times r req body state).0 e h
          (λ core o q d. dispatched r body core o safe found is_body q d refl refl refl refl)
          (λ x q. stopped r body x q refl refl refl refl)

    handle_upgrade-Traced :
        (r : RouteConfig) (cfg : WebSocketTransportConfig)
        → path_contains_traversal req.path ≡ false
        → route router req.method req.path ≡ some r
        → r.transport ≡ web_socket cfg
        → Traced J axum backends router times
            (Handled J axum backends router times req state)
            req
            state
            (some (handle_upgrade J axum backends router times r cfg req state))
    unfolding handle_upgrade
    handle_upgrade-Traced r cfg safe found e = elim (Bool-cases (axum.accepts_upgrade req)) [
      | inl accepts ↦ rw accepts (
          answer-Traced (Handled J axum backends router times req state) req state _ _ _ _ _ _
            state.middleware (upgraded r cfg safe found e refl refl refl refl))
      | inr refuses ↦ rw refuses (
          answer-Traced (Handled J axum backends router times req state) req state _ _ _ _ _ []
            state.middleware (refused_early _ (Early.no_upgrade refuses refl) refl refl refl))
    ]

    handle_routed-Traced :
        (r : RouteConfig) (t : TransportConfig)
        → r.transport ≡ t
        → path_contains_traversal req.path ≡ false
        → route router req.method req.path ≡ some r
        → Traced J axum backends router times
            (Handled J axum backends router times req state)
            req
            state
            (handle_routed J axum backends router times r req state)
    unfolding handle_routed
    handle_routed-Traced r (web_socket cfg) e safe found =
        rw (e, handle_routed) (handle_upgrade-Traced r cfg safe found e)
    handle_routed-Traced r (http cfg) e safe found =
        rw (e, handle_routed) (handle_body-Traced r (http cfg) req.body e tt safe found refl)
    handle_routed-Traced r (zmq cfg) e safe found =
        rw (e, handle_routed) (handle_body-Traced r (zmq cfg) req.body e tt safe found refl)
    handle_routed-Traced r (graphql cfg) e safe found =
        rw (e, handle_routed) (handle_body-Traced r (graphql cfg) req.body e tt safe found refl)
    handle_routed-Traced r (grpc cfg) e safe found =
        rw (e, handle_routed) (handle_body-Traced r (grpc cfg) req.body e tt safe found refl)
    handle_routed-Traced r (mqtt cfg) e safe found =
        rw (e, handle_routed) (handle_body-Traced r (mqtt cfg) req.body e tt safe found refl)
    handle_routed-Traced r (amqp cfg) e safe found =
        rw (e, handle_routed) (handle_body-Traced r (amqp cfg) req.body e tt safe found refl)

    pub handle_request-Traced :
        Traced J axum backends router times
          (Handled J axum backends router times req state)
          req
          state
          (handle_request J axum backends router times req state)
    unfolding handle_request
    handle_request-Traced = elim (Bool-cases (path_contains_traversal req.path)) [
      | inl unsafe ↦ rw unsafe (
          answer-Traced (Handled J axum backends router times req state) req state _ _ _ _ _ []
            state.middleware (refused_early _ (Early.bad_path unsafe refl) refl refl refl))
      | inr safe ↦ elim (Option-cases (route router req.method req.path)) [
        | inl missing ↦
            rw (safe, missing, handle_request)
              (answer-Traced (Handled J axum backends router times req state) req state _ _ _ _ _ []
                state.middleware (refused_early _ (Early.no_route missing refl) refl refl refl))
        | inr (r, found) ↦
            rw (safe, found, handle_request) (handle_routed-Traced r r.transport refl safe found)
      ]
    ]
