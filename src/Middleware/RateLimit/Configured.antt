-- ===== src/Middleware/RateLimit/Configured.antt =====
-- The limiter of src/core/middleware/rate_limit.rs with the settings that the gateway gives it.
use iron_babel.Base.{
  ℕ, ◌*◌, ◌%◌, ◌≡◌, ◌≢◌, refl, ◌∙◌, Bool, true, false, Bool-cases, inl, inr, none, some, List, [],
  ◌∷◌,
}
use iron_babel.Text.{Str, text, str_eq}
use iron_babel.Text.Laws.{str_eq_iff}
use iron_babel.Error.{Error, Result, ok, err}
use iron_babel.Json.{Json, JsonLaws, lookup, HasDistinctKeys}
use iron_babel.Middleware.{Request}
use iron_babel.Middleware.RateLimit.{
  Limits, setting, client_key, or_else, decide, is_rate_limited, handle_request,
}

-- `as u32`, and seconds on a clock of nanoseconds.
abbrev pub limit_of : ℕ → ℕ
limit_of requests_per_window = requests_per_window % 4294967296

abbrev pub window_of : ℕ → ℕ
window_of window_secs = window_secs * 1000000000

module _ (J : Json) (laws : JsonLaws J) where
  pub get_setting :
      (fields : List (Str × J.Value)) (k : Str)
      → HasDistinctKeys fields
      → setting J (J.object fields) k ≡ elim (lookup k fields) [ none ↦ none | some v ↦ J.as_u64 v ]
  unfolding setting
  get_setting fields k h = rw (laws.get_object fields k h, setting) refl

  abbrev pub limiter_settings : ℕ → ℕ → J.Value
  limiter_settings requests window =
      J.object (
        (text "requests_per_window", J.number requests)
        ∷ (text "window_secs", J.number window)
        ∷ [])

  names_differ : str_eq (text "window_secs") (text "requests_per_window") ≡ false
  unfolding text str_eq
  names_differ = refl

  window_name : text "window_secs" ≢ text "requests_per_window"
  window_name e =
      let same = (str_eq_iff (text "window_secs") (text "requests_per_window")).1 e in
      absurd (cc (same, names_differ))

  pub found_window :
      (requests window : ℕ)
      → lookup (text "window_secs") (
          (text "requests_per_window", J.number requests)
          ∷ (text "window_secs", J.number window)
          ∷ [])
        ≡ some (J.number window)
  unfolding lookup text str_eq
  found_window requests window = refl

  found_requests :
      (requests window : ℕ)
      → lookup (text "requests_per_window") (
          (text "requests_per_window", J.number requests)
          ∷ (text "window_secs", J.number window)
          ∷ [])
        ≡ some (J.number requests)
  unfolding lookup text str_eq
  found_requests requests window = refl

  pub names-HasDistinctKeys :
      (requests window : ℕ)
      → HasDistinctKeys {A = J.Value} (
          (text "requests_per_window", J.number requests)
          ∷ (text "window_secs", J.number window)
          ∷ [])
  names-HasDistinctKeys requests window = ((window_name, tt), (tt, tt))

  read_window :
      (requests window : ℕ)
      → setting J (limiter_settings requests window) (text "window_secs") ≡ some window
  read_window requests window =
      get_setting _ (text "window_secs") (names-HasDistinctKeys requests window)
      ∙ rw (found_window requests window) (laws.as_u64_number window)

  read_requests :
      (requests window : ℕ)
      → setting J (limiter_settings requests window) (text "requests_per_window") ≡ some requests
  read_requests requests window =
      get_setting _ (text "requests_per_window") (names-HasDistinctKeys requests window)
      ∙ rw (found_requests requests window) (laws.as_u64_number requests)

  -- The limiter of a client, at the configured limit and window.
  abbrev pub limited : ℕ → ℕ → ℕ → Limits → Request → Bool × Limits
  limited requests window now limits request =
      is_rate_limited (client_key J request.metadata.remote_addr) (limit_of requests)
        (window_of window) now limits

  -- What the limiter answers, and the map that it leaves.
  pub data Limited (enabled : Bool) (requests window now : ℕ) (limits : Limits) (request : Request)
      (answer : Result Request × Limits) : Type 0 where
    off :
        enabled ≡ false
        → answer ≡ (ok request, limits)
        → Limited enabled requests window now limits request answer
    over :
        enabled ≡ true
        → (limited requests window now limits request).0 ≡ true
        → answer ≡ (err Error.rate_limited, (limited requests window now limits request).1)
        → Limited enabled requests window now limits request answer
    within :
        enabled ≡ true
        → (limited requests window now limits request).0 ≡ false
        → answer ≡ (ok request, (limited requests window now limits request).1)
        → Limited enabled requests window now limits request answer

  decide-Limited :
      (requests window now : ℕ) (limits : Limits) (request : Request)
      → Limited true requests window now limits request
          (decide J request (limited requests window now limits request))
  unfolding decide
  decide-Limited requests window now limits request =
      elim (Bool-cases (limited requests window now limits request).0) [
        | inl many ↦ over refl many (rw many refl)
        | inr few ↦ within refl few (rw few refl)
      ]

  pub handle_request-Limited :
      (enabled : Bool) (requests window now : ℕ) (limits : Limits) (request : Request)
      → Limited enabled requests window now limits request (
          handle_request J
            (record { enabled = enabled; settings = limiter_settings requests window })
            now
            limits
            request)
  unfolding handle_request or_else
  handle_request-Limited false requests window now limits request = off refl refl
  handle_request-Limited true requests window now limits request =
      rw (read_window requests window, read_requests requests window)
        (decide-Limited requests window now limits request)
