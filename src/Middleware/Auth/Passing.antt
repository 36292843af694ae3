-- ===== src/Middleware/Auth/Passing.antt =====
-- What src/core/middleware/auth.rs answers, whatever the settings.
use iron_babel.Base.{
  ◌≡◌, refl, false, Bool-cases, inl, inr, Option, none, some, List, [], ◌∷◌, drop, ◌⊎◌,
}
use iron_babel.Text.{Str, text, starts_with}
use iron_babel.Error.{Error, Checked, ok, err, ◌>>◌, checked-eq-ok}
use iron_babel.Json.{Json}
use iron_babel.Middleware.{Request, MiddlewareConfig}
use iron_babel.Middleware.Auth.{
  any_key, api_keys, check_keys, validate_token, keys_configured, check_header, handle_request,
}

module _ (J : Json) where
  pub handle_request-same :
      (cfg : MiddlewareConfig J.Value) (request request' : Request)
      → handle_request J cfg request ≡ ok request'
      → request ≡ request'
  unfolding handle_request validate_token
  handle_request-same cfg request request' h = elim (Bool-cases cfg.enabled) [
    | inl on ↦ (checked-eq-ok _ request (rw on at h)).1
    | inr off ↦ cc (rw off at h)
  ]

  IsRefusal : Checked → Type 0
  IsRefusal m = (m ≡ ok tt) ⊎ ((msg : Str) × (m ≡ err (Error.unauthorized msg)))

  check_keys-IsRefusal :
      (token : Str) (keys : Option (List J.Value)) → IsRefusal (check_keys J token keys)
  unfolding IsRefusal check_keys
  check_keys-IsRefusal token none = inl refl
  check_keys-IsRefusal token (some []) = inl refl
  check_keys-IsRefusal token (some (k ∷ ks)) = elim (Bool-cases (any_key J token false (k ∷ ks))) [
    | inl matched ↦ rw matched (inl refl)
    | inr wrong ↦ rw wrong (inr (_, refl))
  ]

  check_header-IsRefusal :
      (cfg : MiddlewareConfig J.Value) (value : Option Str) → IsRefusal (check_header J cfg value)
  unfolding check_header IsRefusal validate_token
  check_header-IsRefusal cfg none =
      elim (Bool-cases (keys_configured J (api_keys J cfg.settings))) [
        | inl set ↦ rw set (inr (_, refl))
        | inr unset ↦ rw unset (inl refl)
      ]
  check_header-IsRefusal cfg (some value) = elim (Bool-cases (starts_with (text "Bearer ") value)) [
    | inl bearer ↦ rw bearer (check_keys-IsRefusal (drop 7 value) (api_keys J cfg.settings))
    | inr other ↦ elim (Bool-cases (keys_configured J (api_keys J cfg.settings))) [
      | inl set ↦ rw (other, set) (inr (_, refl))
      | inr unset ↦ rw (other, unset) (inl refl)
    ]
  ]

  after_check :
      (m : Checked) (request : Request)
      → IsRefusal m
      → ((m >> ok request) ≡ ok request)
        ⊎ ((msg : Str) × ((m >> ok request) ≡ err (Error.unauthorized msg)))
  unfolding IsRefusal
  after_check m request (inl passed) = rw passed (inl refl)
  after_check m request (inr (msg, refused)) = rw refused (inr (msg, refl))

  pub handle_request-cases :
      (cfg : MiddlewareConfig J.Value) (request : Request)
      → (handle_request J cfg request ≡ ok request)
        ⊎ ((msg : Str) × (handle_request J cfg request ≡ err (Error.unauthorized msg)))
  unfolding handle_request validate_token
  handle_request-cases cfg request = elim (Bool-cases cfg.enabled) [
    | inl on ↦ rw on (after_check _ request (check_header-IsRefusal cfg _))
    | inr off ↦ rw off (inl refl)
  ]
