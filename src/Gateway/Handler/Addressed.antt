-- ===== src/Gateway/Handler/Addressed.antt =====
-- The client's address in the requests that `handle_request` of src/core/gateway.rs sends upstream.
use iron_babel.Base.{ℕ, ◌≡◌, refl, sym, ap, subst, some, List, ◌++◌, All}
use iron_babel.Json.{Json}
use iron_babel.Router.{Router}
use iron_babel.Middleware.Chain
use iron_babel.Middleware.Chain.{Middleware}
use iron_babel.Gateway.{
  finalize_response, HttpResponse, Incoming, Axum, Backends, Forwarded, AppState, Times,
}
use iron_babel.Gateway.Forwarding.{set_forwarded_for-exact}
use iron_babel.Gateway.Dispatch.Sent.{IsAddressed}
use iron_babel.Gateway.Dispatch.Addressed.{dispatch-address}
use iron_babel.Gateway.Handler.{core_request, or_empty, handle_request}
use iron_babel.Gateway.Handler.Ways.{
  Handled, refused_early, upgraded, stopped, dispatched, forwarded_headers,
}
use iron_babel.Gateway.Handler.Traces.{handle_request-Traced}

module _ (J : Json) (axum : Axum) (backends : Backends) (router : Router) (times : Times)
    (req : Incoming) (state : AppState J.Value) where
  Handled-IsAddressed :
      (calls : List Forwarded) (chain : List (Middleware J.Value)) (status : ℕ) (raw : HttpResponse)
      → Handled J axum backends router times req state calls chain status raw
      → All (IsAddressed req.remote_addr) calls
  unfolding core_request or_empty
  Handled-IsAddressed calls chain status raw (refused_early msg early made nothing kept) =
      subst (All (IsAddressed req.remote_addr)) (sym nothing) tt
  Handled-IsAddressed calls chain status raw (upgraded r cfg safe found e opened kept at made) =
      subst (All (IsAddressed req.remote_addr)) (sym opened) (tt, tt)
  Handled-IsAddressed calls chain status raw (stopped r body e q nothing left at made) =
      subst (All (IsAddressed req.remote_addr)) (sym nothing) tt
  Handled-IsAddressed calls chain status raw
        (dispatched r body core o safe found b passed d made left at given) =
      let same =
        Chain.Outcomes.handle_request-same J state.middleware times.now (core_request r req body)
          core passed in
      let addr : or_empty core.metadata.remote_addr ≡ req.remote_addr =
        sym (ap (λ c. or_empty c.metadata.remote_addr) same) in
      let named =
        (set_forwarded_for-exact core.metadata.headers (or_empty core.metadata.remote_addr)).0 in
      subst (All (IsAddressed req.remote_addr)) (sym made) (
        subst (λ a. All (IsAddressed a) o.forwarded) addr
          (dispatch-address axum (or_empty core.metadata.remote_addr)
            (forwarded_headers J axum backends router times core) named backends J r r.transport req
            core.body o refl d))

  -- Whatever the client sent, each HTTP request that leaves the gateway for an HTTP, GraphQL or gRPC
  -- backend while it answers a request names exactly the address of the client's socket as
  -- X-Forwarded-For, once, or no address if it is unknown.
  pub handle_request-IsAddressed :
      (response : HttpResponse) × (after : AppState J.Value) × (calls : List Forwarded)
      × (handle_request J axum backends router times req state ≡ some (response, after))
      × (after.forwarded ≡ state.forwarded ++ calls)
      × All (IsAddressed req.remote_addr) calls
  handle_request-IsAddressed =
      let t = handle_request-Traced J axum backends router times req state in
      (
        finalize_response J axum t.after.middleware t.raw,
        t.after,
        t.calls,
        t.answered,
        t.called,
        Handled-IsAddressed t.calls t.after.middleware t.sample.status_code t.raw t.how,
      )
