-- ===== src/Middleware/Auth/Tokens.antt =====
-- Whom the token check lets through, for settings as `build_middleware_chain` makes them.
use iron_babel.Base.{
  ◌≡◌, ◌≢◌, refl, sym, ap, subst, ◌↔◌, ◌⊎◌, inl, inr, Bool, true, false, ◌||◌, Option, none, some,
  List, [], ◌∷◌, ◌++◌, map, arith, In, All, All_append-right, Bool-cases,
}
use iron_babel.Text.{Str, text, starts_with, eq_ignore_ascii_case}
use iron_babel.Text.Laws.{starts_with_iff, str_eq_iff}
use iron_babel.Error.{Error, ok, err, checked-eq-ok}
use iron_babel.Json.{Json, JsonLaws, lookup}
use iron_babel.HttpGuard.{Header}
use iron_babel.Grpc.Bytes.{IsByte}
use iron_babel.Middleware.{Request, MiddlewareConfig}
use iron_babel.Middleware.Auth.{
  constant_time_eq, find_header, key_matches, any_key, api_keys, check_keys, validate_token,
  keys_configured, check_header, handle_request,
}
use iron_babel.Middleware.Auth.Secrets.{constant_time_eq_iff}

or_cases : (a b : Bool) → (a || b) ≡ true → (a ≡ true) ⊎ (b ≡ true)
or_cases true b h = inl refl
or_cases false b h = inr h

or_left : (a b : Bool) → a ≡ true → (a || b) ≡ true
or_left true b h = refl
or_left false b h = cc

or_right : (a : Bool) {b : Bool} → b ≡ true → (a || b) ≡ true
or_right true h = refl
or_right false h = h

token-bytes :
    (value token : Str) → All IsByte value → value ≡ text "Bearer " ++ token → All IsByte token
token-bytes value token h e =
    All_append-right IsByte (text "Bearer ") token (subst (All IsByte) e h)

same_value : (w v : Str) → some w ≡ some v → w ≡ v
same_value w v e = cc

find_header-All :
    (name : Str) (hs : List Header) (v : Str)
    → All (λ h. All IsByte h.1) hs
    → find_header name hs ≡ some v
    → All IsByte v
unfolding find_header
find_header-All name [] v h e = cc
find_header-All name ((k, w) ∷ hs) v h e = elim (Bool-cases (eq_ignore_ascii_case k name)) [
  | inl this ↦ subst (All IsByte) (same_value w v (rw this at e)) h.0
  | inr other ↦ find_header-All name hs v h.1 (rw other at e)
]

module _ (J : Json) (laws : JsonLaws J) where
  -- `json!({ "api_keys": keys })`
  abbrev pub key_settings : List Str → J.Value
  key_settings keys = J.object ((text "api_keys", J.array (map J.string keys)) ∷ [])

  api_keys-key_settings :
      (keys : List Str) → api_keys J (key_settings keys) ≡ some (map J.string keys)
  unfolding api_keys lookup
  api_keys-key_settings keys =
      rw
        (
          laws.get_object ((text "api_keys", J.array (map J.string keys)) ∷ []) (text "api_keys")
              (tt, tt),
          api_keys,
        )
        (rw ((str_eq_iff (text "api_keys") (text "api_keys")).1 refl, lookup)
          (laws.as_array_array (map J.string keys)))

  any_key_iff :
      (token : Str) (keys : List Str) (acc : Bool)
      → All IsByte token
      → All (All IsByte) keys
      → (any_key J token acc (map J.string keys) ≡ true) ↔ ((acc ≡ true) ⊎ In token keys)
  unfolding any_key key_matches
  any_key_iff token [] acc ht hk = ground arith
  any_key_iff token (key ∷ keys) acc ht hk =
      let rest = any_key_iff token keys (acc || constant_time_eq key token) ht hk.1 in
      let this = constant_time_eq_iff key token hk.0 ht in
      rw (laws.as_str_string key, any_key)
        (
          λ h. elim (rest.0 h) [
            | inl t ↦ elim (or_cases acc (constant_time_eq key token) t) [
              | inl a ↦ inl a
              | inr c ↦ inr (inl (sym (this.0 c)))
            ]
            | inr i ↦ inr (inr i)
          ],
          λ h. rest.1 (elim h [
            | inl a ↦ inl (or_left acc _ a)
            | inr (inl e) ↦ inl (or_right acc (this.1 (sym e)))
            | inr (inr i) ↦ inr i
          ]),
        )

  -- With keys configured, a token passes exactly when it is one of them.
  validate_token_iff :
      (enabled : Bool) (keys : List Str) (token : Str)
      → keys ≢ []
      → All IsByte token
      → All (All IsByte) keys
      → (validate_token J (record { enabled = enabled; settings = key_settings keys }) token
          ≡ ok tt)
        ↔ In token keys
  unfolding validate_token check_keys
  validate_token_iff enabled [] token ne ht hk = absurd (ne refl)
  validate_token_iff enabled (key ∷ keys) token ne ht hk =
      let some_key = any_key_iff token (key ∷ keys) false ht hk in
      rw (api_keys-key_settings (key ∷ keys)) (ground arith)

  abbrev pub settings_with : Bool → List Str → MiddlewareConfig J.Value
  settings_with enabled keys = record { enabled = enabled; settings = key_settings keys }

  keys_configured-cons :
      (key : Str) (keys : List Str)
      → keys_configured J (api_keys J (key_settings (key ∷ keys))) ≡ true
  unfolding keys_configured
  keys_configured-cons key keys = rw (api_keys-key_settings (key ∷ keys)) refl

  -- The header value presents one of the keys as a Bearer token.
  abbrev pub Presents : List Str → Option Str → Type 0
  Presents keys none = ⊥
  Presents keys (some value) = (token : Str) × (value ≡ text "Bearer " ++ token) × In token keys

  bearer_iff :
      (key : Str) (keys : List Str) (token : Str)
      → All IsByte token
      → All (All IsByte) (key ∷ keys)
      → (check_header J (settings_with true (key ∷ keys)) (some (text "Bearer " ++ token)) ≡ ok tt)
        ↔ In token (key ∷ keys)
  unfolding check_header text
  bearer_iff key keys token ht hk =
      rw ((starts_with_iff (text "Bearer ") (text "Bearer " ++ token)).1 (token, refl))
        (validate_token_iff true (key ∷ keys) token (λ e. cc) ht hk)

  rejected :
      (key : Str) (keys : List Str) (value : Str)
      → starts_with (text "Bearer ") value ≡ false
      → check_header J (settings_with true (key ∷ keys)) (some value)
        ≡ err (Error.unauthorized (text "Invalid Authorization scheme: Bearer required"))
  unfolding check_header
  rejected key keys value other = rw (other, keys_configured-cons key keys) refl

  check_header_iff :
      (key : Str) (keys : List Str) (value : Option Str)
      → ((v : Str) → value ≡ some v → All IsByte v)
      → All (All IsByte) (key ∷ keys)
      → (check_header J (settings_with true (key ∷ keys)) value ≡ ok tt)
        ↔ Presents (key ∷ keys) value
  unfolding check_header
  check_header_iff key keys none hv hk = rw (keys_configured-cons key keys) (λ h. cc, λ h. absurd h)
  check_header_iff key keys (some value) hv hk = (
    λ h. elim (Bool-cases (starts_with (text "Bearer ") value)) [
      | inl bearer ↦
          let (token, e) = (starts_with_iff (text "Bearer ") value).0 bearer in
          (
            token,
            e,
            (bearer_iff key keys token (token-bytes value token (hv value refl) e) hk).0 (
                subst (λ w. check_header J (settings_with true (key ∷ keys)) (some w) ≡ ok tt) e h),
          )
      | inr other ↦ absurd (cc (h, rejected key keys value other))
    ],
    λ h.
        let (token, e, i) = h in
        subst (λ w. check_header J (settings_with true (key ∷ keys)) (some w) ≡ ok tt) (sym e)
          ((bearer_iff key keys token (token-bytes value token (hv value refl) e) hk).1 i),
  )

  -- With the check enabled and keys configured, a request passes exactly when its first
  -- authorization header is "Bearer " followed by one of the keys, and it passes unchanged.
  pub handle_request-ok_iff :
      (key : Str) (keys : List Str) (request request' : Request)
      → All (λ h. All IsByte h.1) request.metadata.headers
      → All (All IsByte) (key ∷ keys)
      → (handle_request J (settings_with true (key ∷ keys)) request ≡ ok request') ↔ (
          (request ≡ request')
          × Presents (key ∷ keys) (find_header (text "authorization") request.metadata.headers))
  unfolding handle_request
  handle_request-ok_iff key keys request request' hh hk =
      let header = find_header (text "authorization") request.metadata.headers in
      let pass =
        check_header_iff key keys header
          (λ v e. find_header-All (text "authorization") request.metadata.headers v hh e) hk in
      (
        λ h.
            let (checked, e) =
              checked-eq-ok (check_header J (settings_with true (key ∷ keys)) header) request h in
            (e, pass.0 checked),
        λ h. rw (pass.1 h.1) (ap ok h.0),
      )
