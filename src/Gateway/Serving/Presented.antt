-- ===== src/Gateway/Serving/Presented.antt =====
-- The token check in front of the whole gateway: which requests reach a backend.
use iron_babel.Base.{
  ◌≡◌, refl, sym, ◌∙◌, subst, inl, inr, true, Bool-cases, List, [], ◌∷◌, arith, All,
}
use iron_babel.Text.{Str, text}
use iron_babel.Json.{Json, JsonLaws}
use iron_babel.Grpc.Bytes.{IsByte}
use iron_babel.Config.Types.{MiddlewareSectionConfig}
use iron_babel.Router.{Router}
use iron_babel.Middleware.Auth
use iron_babel.Middleware.Auth.Tokens.{Presents}
use iron_babel.Middleware.Chain
use iron_babel.Middleware.Chain.{chain_of}
use iron_babel.Middleware.Chain.Authorized.{chain_of-Presents}
use iron_babel.Middleware.Chain.Steps.{handle_request-chain_of}
use iron_babel.Middleware.RateLimit.{Limits}
use iron_babel.Gateway.{Axum, Backends, AppState}
use iron_babel.Gateway.Serving.{Visit, incoming_of, stamp, acted, initial, next, reached}
use iron_babel.Gateway.Serving.Effects.{Effect, serve_one-Effect}

module _ (J : Json) (laws : JsonLaws J) (axum : Axum) (backends : Backends) (router : Router)
    (section : MiddlewareSectionConfig) (key : Str) (keys : List Str)
    (on : section.auth ≡ record { enabled = true; api_keys = key ∷ keys })
    (key_bytes : All (All IsByte) (key ∷ keys)) where
  -- The request presents one of the keys.
  abbrev pub IsPresented : Visit → Type 0
  IsPresented a =
      Presents J laws (key ∷ keys) (Auth.find_header (text "authorization") (incoming_of a).headers)

  abbrev pub HasByteHeaders : Visit → Type 0
  HasByteHeaders a = All (λ h. All IsByte h.1) (incoming_of a).headers

  module _ (a : Visit) (limits : Limits) (before after : AppState J.Value)
      (start : before.middleware ≡ chain_of J section limits) where
    Effect-chain :
        Effect J axum backends router a before after
        → (left : Limits) × (after.middleware ≡ chain_of J section left)
    Effect-chain (Effect.kept same idle) = (limits, same ∙ start)
    Effect-chain (Effect.asked request addr headers chain how) =
        let (left, e) = handle_request-chain_of J laws section limits (stamp a).1 request in
        (left, chain ∙ (rw start e))

    Effect-IsPresented :
        HasByteHeaders a
        → Effect J axum backends router a before after
        → acted J axum backends router before after ≡ true
        → IsPresented a
    Effect-IsPresented bytes (Effect.kept same idle) called = absurd (ground arith)
    Effect-IsPresented bytes (Effect.asked request addr headers chain (inl idle)) called =
        absurd (ground arith)
    Effect-IsPresented bytes (Effect.asked request addr headers chain (inr passed)) called =
        subst (λ hs. Presents J laws (key ∷ keys) (Auth.find_header (text "authorization") hs))
          headers
          (chain_of-Presents J laws section key keys limits (stamp a).1 request request on
            (subst (λ hs. All (λ h. All IsByte h.1) hs) (sym headers) bytes) key_bytes
            (rw (← start) passed))

  serve-IsPresented :
      (visits : List Visit) (limits : Limits) (state : AppState J.Value)
      → state.middleware ≡ chain_of J section limits
      → All HasByteHeaders visits
      → All IsPresented (reached J axum backends router visits state)
  unfolding reached
  serve-IsPresented [] limits state start bytes = tt
  serve-IsPresented (a ∷ visits) limits state start bytes =
      let after = next J axum backends router a state in
      let effect = (serve_one-Effect J axum backends router a state).2 in
      let (left, chain) = Effect-chain a limits state after start effect in
      let rest = serve-IsPresented visits left after chain bytes.1 in
      elim (Bool-cases (acted J axum backends router state after)) [
        | inl called ↦
            rw called (Effect-IsPresented a limits state after start bytes.0 effect called, rest)
        | inr idle ↦ rw idle rest
      ]

  -- With the token check enabled and keys configured that are byte strings, however requests to the
  -- routes and to the admin pages, whose header values are byte strings, follow each other: each
  -- request in which a backend is called, WebSocket upgrades apart, has as its first authorization
  -- header "Bearer " and one of the keys.
  pub reached-IsPresented :
      (visits : List Visit)
      → All HasByteHeaders visits
      → All IsPresented
          (reached J axum backends router visits (initial J axum backends router section))
  unfolding initial Chain.build_middleware_chain
  reached-IsPresented visits bytes =
      serve-IsPresented visits [] (initial J axum backends router section) refl bytes
