-- ===== src/Gateway/Handler/Reported.antt =====
-- The status of the answer of `handle_request` of src/core/gateway.rs and the status in the metrics.
use iron_babel.Base.{ℕ, ◌≡◌, ◌≤◌, refl, sym, ◌∙◌, subst, ◌⊎◌, inl, inr, none, some, List, arith}
use iron_babel.Text.{Str}
use iron_babel.Error.{Error}
use iron_babel.HttpGuard.{Header}
use iron_babel.Json.{Json}
use iron_babel.Router.{Router}
use iron_babel.Metrics.{Sample, record_request}
use iron_babel.Middleware.Chain.{Middleware}
use iron_babel.Gateway.{
  HttpResponse, Incoming, Axum, AxumLaws, Backends, Forwarded, AppState, Times, finalize_response,
}
use iron_babel.Gateway.Finalized.{finalize_response-status}
use iron_babel.Gateway.Dispatch.Told.{Told, agrees, unbuilt, plain-Told, dispatch-Told}
use iron_babel.Gateway.Handler.{handle_request}
use iron_babel.Gateway.Handler.Ways.{
  Early, Handled, refused_early, upgraded, stopped, dispatched, refusal_status, refusal,
}
use iron_babel.Gateway.Handler.Traces.{handle_request-Traced}

module _ (J : Json) (axum : Axum) (laws : AxumLaws axum) (backends : Backends) (router : Router)
    (times : Times) (req : Incoming) (state : AppState J.Value) where
  Early-code :
      (status : ℕ) → Early J axum backends router times req status → (100 ≤ status) × (status ≤ 999)
  Early-code status (Early.bad_path h e) = omega arith
  Early-code status (Early.no_route h e) = omega arith
  Early-code status (Early.too_large h e) = omega arith
  Early-code status (Early.no_upgrade h e) = omega arith

  refusal-Told :
      (chain : List (Middleware J.Value)) (e : Error)
      → Told axum
          (refusal_status J axum backends router times e)
          (refusal J axum backends router times chain e)
  refusal-Told chain (Error.unauthorized msg) =
      plain-Told axum laws 401 _ _ (omega arith) (omega arith)
  refusal-Told chain Error.rate_limited = plain-Told axum laws 429 _ _ (omega arith) (omega arith)
  refusal-Told chain (Error.io m) = plain-Told axum laws 500 _ _ (omega arith) (omega arith)
  refusal-Told chain (Error.serialization m) =
      plain-Told axum laws 500 _ _ (omega arith) (omega arith)
  refusal-Told chain (Error.yaml m) = plain-Told axum laws 500 _ _ (omega arith) (omega arith)
  refusal-Told chain (Error.http m) = plain-Told axum laws 500 _ _ (omega arith) (omega arith)
  refusal-Told chain (Error.protocol m) = plain-Told axum laws 500 _ _ (omega arith) (omega arith)
  refusal-Told chain (Error.config m) = plain-Told axum laws 500 _ _ (omega arith) (omega arith)
  refusal-Told chain (Error.graphql m) = plain-Told axum laws 500 _ _ (omega arith) (omega arith)
  refusal-Told chain (Error.unknown m) = plain-Told axum laws 500 _ _ (omega arith) (omega arith)

  move : {s t : ℕ} {r u : HttpResponse} → s ≡ t → r ≡ u → Told axum t u → Told axum s r
  move {s} {t} {r} {u} e f h =
      subst (λ k. Told axum k r) (sym e) (subst (λ x. Told axum t x) (sym f) h)

  Handled-Told :
      (calls : List Forwarded) (chain : List (Middleware J.Value)) (status : ℕ) (raw : HttpResponse)
      → Handled J axum backends router times req state calls chain status raw
      → Told axum status raw
  Handled-Told calls chain status raw (refused_early msg early made nothing kept) =
      let (low, high) = Early-code status early in
      move refl made (plain-Told axum laws status _ msg low high)
  Handled-Told calls chain status raw (upgraded r cfg safe found e opened kept at made) =
      move at made
        (agrees (laws.upgrade_status cfg.url cfg.timeout_secs) (omega arith) (omega arith))
  Handled-Told calls chain status raw (stopped r body e q nothing left at made) =
      move at made (refusal-Told chain e)
  Handled-Told calls chain status raw (dispatched r body core o safe found b q d c left at given) =
      move at given (dispatch-Told axum laws backends J r r.transport req _ core.body o refl d)

  Told-status :
      (chain : List (Middleware J.Value)) (status : ℕ) (raw : HttpResponse)
      → Told axum status raw
      → ((finalize_response J axum chain raw).status ≡ status)
        ⊎ (((finalize_response J axum chain raw).status ≡ 500)
            × (headers : List Header) × (body : Str) × (axum.builder status headers body ≡ none))
  Told-status chain status raw (agrees same low high) =
      inl (finalize_response-status J axum chain raw (omega arith) (omega arith) ∙ same)
  Told-status chain status raw (unbuilt headers body refused is_500) = inr (
    finalize_response-status J axum chain raw (omega arith) (omega arith) ∙ is_500,
    headers,
    body,
    refused,
  )

  -- The status of the answer is the one that the metrics record of the request; or a response with
  -- the recorded status could not be built, and the answer has 500.
  pub handle_request-IsReported :
      (response : HttpResponse) × (after : AppState J.Value) × (sample : Sample) × (handle_request J
          axum backends router times req state
        ≡ some (response, after))
      × (after.metrics ≡ record_request times.now_ms sample state.metrics)
      × ((response.status ≡ sample.status_code)
          ⊎ ((response.status ≡ 500)
              × (headers : List Header) × (body : Str) × (axum.builder sample.status_code headers
                    body
                  ≡ none)))
  handle_request-IsReported =
      let t = handle_request-Traced J axum backends router times req state in
      (
        finalize_response J axum t.after.middleware t.raw,
        t.after,
        t.sample,
        t.answered,
        t.recorded,
        Told-status t.after.middleware t.sample.status_code t.raw
            (Handled-Told t.calls t.after.middleware t.sample.status_code t.raw t.how),
      )
