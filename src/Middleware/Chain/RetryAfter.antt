-- ===== src/Middleware/Chain/RetryAfter.antt =====
-- The window that the chain names for the `Retry-After` header.
use iron_babel.Base.{
  ℕ, ◌≡◌, refl, ◌∙◌, Bool, true, false, Option, none, some, List, [], ◌∷◌, map, if◌then◌else◌,
}
use iron_babel.Text.{Str, text, str_eq}
use iron_babel.Json.{Json, JsonLaws, lookup, HasDistinctKeys}
use iron_babel.Config.Types.{MiddlewareSectionConfig}
use iron_babel.Middleware.{MiddlewareConfig}
use iron_babel.Middleware.RateLimit.{Limits}
use iron_babel.Middleware.RateLimit.Configured.{get_setting, found_window, names-HasDistinctKeys}
use iron_babel.Middleware.Chain.{Middleware, config, window_secs, rate_limit_window_secs, chain_of}

module _ (J : Json) (laws : JsonLaws J) where
  no_window :
      (enabled : Bool) (fields : List (Str × J.Value))
      → HasDistinctKeys fields
      → lookup (text "window_secs") fields ≡ none
      → window_secs J (record { enabled = enabled; settings = J.object fields }) ≡ none
  unfolding window_secs
  no_window false fields h e = refl
  no_window true fields h e = get_setting J laws fields (text "window_secs") h ∙ rw e refl

  not_found_window : (v : J.Value) → lookup (text "window_secs") ((text "api_keys", v) ∷ []) ≡ none
  unfolding lookup text str_eq
  not_found_window v = refl

  limiter_window :
      (enabled : Bool) (requests window : ℕ)
      → window_secs J (record {
        enabled = enabled;
        settings = J.object (
            (text "requests_per_window", J.number requests)
            ∷ (text "window_secs", J.number window)
            ∷ []);
      })
        ≡ (if enabled then some window else none)
  unfolding window_secs
  limiter_window false requests window = refl
  limiter_window true requests window =
      get_setting J laws _ (text "window_secs") (names-HasDistinctKeys J laws requests window)
      ∙ (rw (found_window J laws requests window) (laws.as_u64_number window))

  skip :
      (m : Middleware J.Value) (ms : List (Middleware J.Value))
      → window_secs J (config J m) ≡ none
      → rate_limit_window_secs J (m ∷ ms) ≡ rate_limit_window_secs J ms
  unfolding rate_limit_window_secs
  skip m ms h = rw (h, rate_limit_window_secs) refl

  nothing : lookup {A = J.Value} (text "window_secs") [] ≡ none
  unfolding lookup
  nothing = refl

  only :
      (cfg : MiddlewareConfig J.Value) (limits : Limits) (found : Option ℕ)
      → window_secs J cfg ≡ found
      → rate_limit_window_secs J (Middleware.rate_limit cfg limits ∷ []) ≡ found
  unfolding rate_limit_window_secs config
  only cfg limits none h = rw (h, rate_limit_window_secs) refl
  only cfg limits (some n) h = rw (h, rate_limit_window_secs) refl

  last_window :
      (l a r : MiddlewareConfig J.Value) (limits : Limits)
      → window_secs J l ≡ none
      → window_secs J a ≡ none
      → rate_limit_window_secs J
          (Middleware.logging l ∷ Middleware.auth a ∷ Middleware.rate_limit r limits ∷ [])
        ≡ window_secs J r
  unfolding config
  last_window l a r limits hl ha =
      skip (Middleware.logging l) (Middleware.auth a ∷ Middleware.rate_limit r limits ∷ []) hl
      ∙ (skip (Middleware.auth a) (Middleware.rate_limit r limits ∷ []) ha
          ∙ only r limits (window_secs J r) refl)

  -- The `Retry-After` window is the limiter's, if the limiter is enabled, and none otherwise: the
  -- settings of the other two middlewares name no window.
  pub rate_limit_window_secs-chain_of :
      (section : MiddlewareSectionConfig) (limits : Limits)
      → rate_limit_window_secs J (chain_of J section limits)
        ≡ (if section.rate_limit.enabled then some section.rate_limit.window_secs else none)
  unfolding rate_limit_window_secs chain_of config window_secs
  rate_limit_window_secs-chain_of section limits =
      last_window _ _ _ limits (no_window section.logging.enabled [] tt nothing) (
        no_window section.auth.enabled
          ((text "api_keys", J.array (map J.string section.auth.api_keys)) ∷ []) (tt, tt)
          (not_found_window _))
      ∙ limiter_window section.rate_limit.enabled section.rate_limit.requests_per_window
          section.rate_limit.window_secs
