-- ===== src/Gateway/Serving/Effects.antt =====
-- What one request does to the chain and to the calls of the backends.
use iron_babel.Base.{
  ℕ, ◌+◌, ◌≡◌, refl, sym, ap, ◌∙◌, ◌⊎◌, inl, inr, some, List, [], ◌∷◌, ◌++◌, arith,
}
use iron_babel.Error.{ok}
use iron_babel.Json.{Json}
use iron_babel.Router.{Router}
use iron_babel.Middleware.{Request}
use iron_babel.Middleware.Chain
use iron_babel.Middleware.Chain.{Middleware}
use iron_babel.Gateway.{
  finalize_response, HttpResponse, Incoming, Axum, Backends, Forwarded, AppState, Times,
}
use iron_babel.Gateway.Handler.{core_request}
use iron_babel.Gateway.Handler.Ways.{Handled, refused_early, upgraded, stopped, dispatched}
use iron_babel.Gateway.Handler.Traces.{handle_request-Traced}
use iron_babel.Gateway.AdminGuard.{admin_request, admin_middleware}
use iron_babel.Gateway.AdminGuard.Refusal.{admin_middleware-state}
use iron_babel.Gateway.Serving.{Visit, traffic, admin, incoming_of, stamp, bodied, serve_one, next}

bodied-append : (xs ys : List Forwarded) → bodied (xs ++ ys) ≡ bodied xs + bodied ys
bodied-append [] ys = omega arith
bodied-append (Forwarded.web_socket_opened u ∷ xs) ys = bodied-append xs ys
bodied-append (Forwarded.http_sent r ∷ xs) ys = omega (arith, bodied-append xs ys)
bodied-append (Forwarded.zmq_sent a b ∷ xs) ys = omega (arith, bodied-append xs ys)
bodied-append (Forwarded.mqtt_sent c b ∷ xs) ys = omega (arith, bodied-append xs ys)
bodied-append (Forwarded.amqp_sent c b ∷ xs) ys = omega (arith, bodied-append xs ys)

bodied-called :
    (before after calls : List Forwarded)
    → after ≡ before ++ calls
    → bodied calls ≡ 0
    → bodied after ≡ bodied before
bodied-called before after calls e h = ap bodied e ∙ omega (arith, bodied-append before calls)

module _ (J : Json) (axum : Axum) (backends : Backends) (router : Router) where
  -- Either the request is answered before the chain is asked, or the chain is asked about a request
  -- with the client's address and headers, and a backend is called only with its consent.
  pub data Effect (a : Visit) (before after : AppState J.Value) : Type 0 where
    kept :
        after.middleware ≡ before.middleware
        → bodied after.forwarded ≡ bodied before.forwarded
        → Effect a before after
    asked :
        (request : Request)
        → request.metadata.remote_addr ≡ some (stamp a).0
        → request.metadata.headers ≡ (incoming_of a).headers
        → after.middleware ≡ (Chain.handle_request J before.middleware (stamp a).1 request).1
        → (bodied after.forwarded ≡ bodied before.forwarded)
          ⊎ ((Chain.handle_request J before.middleware (stamp a).1 request).0 ≡ ok request)
        → Effect a before after

  handled-Effect :
      (times : Times) (req : Incoming) (before after : AppState J.Value) (calls : List Forwarded)
      (status : ℕ) (raw : HttpResponse)
      → after.forwarded ≡ before.forwarded ++ calls
      → Handled J axum backends router times req before calls after.middleware status raw
      → Effect (traffic times req) before after
  unfolding core_request
  handled-Effect times req before after calls status raw e
        (refused_early msg early made nothing same) =
      kept same (bodied-called before.forwarded after.forwarded calls e (ap bodied nothing))
  handled-Effect times req before after calls status raw e
        (upgraded r cfg safe found t opened same at made) =
      kept same (bodied-called before.forwarded after.forwarded calls e (ap bodied opened))
  handled-Effect times req before after calls status raw e
        (stopped r body x refused nothing left at made) =
      asked (core_request r req body) refl refl left
        (inl (bodied-called before.forwarded after.forwarded calls e (ap bodied nothing)))
  handled-Effect times req before after calls status raw e
        (dispatched r body core o safe found b passed d made left at given) =
      let same =
        Chain.Outcomes.handle_request-same J before.middleware times.now (core_request r req body)
          core passed in
      asked (core_request r req body) refl refl left (inr (passed ∙ ap ok (sym same)))

  -- Every request is answered, and its effect is one of the two.
  pub serve_one-Effect :
      (a : Visit) (state : AppState J.Value)
      → (response : HttpResponse) × (serve_one J axum backends router a state
          ≡ some (response, next J axum backends router a state))
        × Effect a state (next J axum backends router a state)
  unfolding serve_one next admin_middleware admin_request
  serve_one-Effect (traffic times req) state =
      let t = handle_request-Traced J axum backends router times req state in
      rw (t.answered, serve_one, next)
        (
          finalize_response J axum t.after.middleware t.raw,
          refl,
          handled-Effect times req state t.after t.calls t.sample.status_code t.raw t.called t.how,
        )
  serve_one-Effect (admin now page req) state =
      let same = admin_middleware-state J axum now page req state in
      (
        _,
        refl,
        asked (admin_request req) refl refl (ap (λ s. s.middleware) same)
            (inl (ap (λ s. bodied s.forwarded) same)),
      )
