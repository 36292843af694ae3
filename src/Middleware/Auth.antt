-- ===== src/Middleware/Auth.antt =====
-- src/core/middleware/auth.rs: the Bearer token check.
pub mod Secrets
pub mod Tokens
pub mod Passing
use Prim.Native.Nat.{bit_or, bit_xor}
use iron_babel.Base.{
  ℕ, Bool, true, false, not, ◌||◌, Option, none, some, List, [], ◌∷◌, ◌==◌, if◌then◌else◌, length,
  drop,
}
use iron_babel.Text.{Str, text, starts_with, eq_ignore_ascii_case}
use iron_babel.Error.{Error, Result, Checked, ok, err, ◌>>=◌, ◌>>◌}
use iron_babel.Json.{Json}
use iron_babel.HttpGuard.{Header}
use iron_babel.Middleware.{Request, MiddlewareConfig}

-- `zip(..).fold(acc, |acc, (x, y)| acc | (x ^ y))`
unfoldable pub fold_difference : ℕ → Str → Str → ℕ
fold_difference acc (x ∷ a) (y ∷ b) = fold_difference (bit_or acc (bit_xor x y)) a b
fold_difference acc _ _ = acc

unfoldable pub constant_time_eq : Str → Str → Bool
constant_time_eq a b = if not (length a == length b) then false else fold_difference 0 a b == 0

unfoldable pub find_header : Str → List Header → Option Str
find_header name [] = none
find_header name ((k, v) ∷ hs) = if eq_ignore_ascii_case k name then some v else find_header name hs

module _ (J : Json) where
  key_matches : Str → Bool → Option Str → Bool
  key_matches token acc (some key) = acc || constant_time_eq key token
  key_matches token acc none = acc

  -- `keys.iter().fold(acc, ..)`
  unfoldable pub any_key : Str → Bool → List J.Value → Bool
  unfolding key_matches
  any_key token acc [] = acc
  any_key token acc (k ∷ ks) = any_key token (key_matches token acc (J.as_str k)) ks

  -- `settings.get("api_keys").and_then(|v| v.as_array())`
  unfoldable pub api_keys : J.Value → Option (List J.Value)
  api_keys settings = elim (J.get settings (text "api_keys")) [
    | none ↦ none
    | some v ↦ J.as_array v
  ]

  check_keys : Str → Option (List J.Value) → Checked
  check_keys token none = ok tt
  check_keys token (some []) = ok tt
  check_keys token (some (k ∷ ks)) =
      if any_key token false (k ∷ ks)
      then ok tt
      else err (Error.unauthorized (text "Invalid token"))

  unfoldable pub validate_token : MiddlewareConfig J.Value → Str → Checked
  unfolding check_keys
  validate_token config token = check_keys token (api_keys config.settings)

  keys_configured : Option (List J.Value) → Bool
  keys_configured (some (_ ∷ _)) = true
  keys_configured _ = false

  check_header : MiddlewareConfig J.Value → Option Str → Checked
  check_header config none =
      if keys_configured (api_keys config.settings)
      then err (Error.unauthorized (text "Missing Authorization header"))
      else ok tt
  check_header config (some value) =
      if starts_with (text "Bearer ") value
      then validate_token config (drop 7 value)
      else if keys_configured (api_keys config.settings)
      then err (Error.unauthorized (text "Invalid Authorization scheme: Bearer required"))
      else ok tt

  unfoldable pub handle_request : MiddlewareConfig J.Value → Request → Result Request
  unfolding check_header keys_configured
  handle_request config request =
      if not config.enabled
      then ok request
      else (check_header config (find_header (text "authorization") request.metadata.headers)
          >> ok request)
