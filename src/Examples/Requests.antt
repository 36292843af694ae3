-- ===== src/Examples/Requests.antt =====
-- The theorems on requests at concrete ones.
use iron_babel.Base.{
  ◌≡◌, ◌⊎◌, ◌&&◌, leb, List, refl, ◌↔◌, true, none, some, [], ◌∷◌, ◌++◌, All, arith, ltb, all, any,
  if◌then◌else◌, retain,
}
use iron_babel.Text.{
  Str, text, is_empty, eq_ignore_ascii_case, to_ascii_lowercase, lower_byte, str_eq,
  to_ascii_uppercase, upper_byte, ends_with_byte, starts_with, trim_end_byte,
}
use iron_babel.Error.{ok}
use iron_babel.HttpGuard.{
  path_contains_traversal, path_is_safe, decode_until_stable, decode_round, replace_escape,
  has_dotdot, split_byte, is_ascii_control,
}
use iron_babel.Grpc.Bytes.{IsByte}
use iron_babel.Router.{new, route, accepts, is_valid_method, find, prefix_matches, allows_method}
use iron_babel.Router.Sort.{sort_desc, insert_desc}
use iron_babel.Router.Choice.{IsChosen, route-IsChosen}
use iron_babel.Middleware.{Request}
use iron_babel.Json.{lookup}
use iron_babel.Middleware.Auth
use iron_babel.Middleware.RateLimit
use iron_babel.Middleware.Auth.Tokens.{settings_with, Presents}
use iron_babel.Middleware.Chain
use iron_babel.Middleware.Chain.{chain_of, rate_limit_window_secs}
use iron_babel.Upstream.{UpstreamRequest, http_request, forward_headers}
use iron_babel.Upstream.Requests.{
  IsFit, Carries, upstream_url, http_request-ok_iff, http_request-Carries,
}
use iron_babel.Gateway.{HttpResponse, Axum, AxumLaws, AppState}
use iron_babel.Metrics.{Sample, record_request}
use iron_babel.HttpGuard.{Header}
use iron_babel.Gateway.Handler
use iron_babel.Gateway.Handler.{core_request}
use iron_babel.Gateway.Handler.Reported.{handle_request-IsReported}
use iron_babel.Gateway.Handler.Answers.{Answered, Passed, handle_request-Answered}
use iron_babel.Examples.SampleJson.{sample_json, sample_laws}
use iron_babel.Examples.SampleGateway.{
  http_route, routes, section, request, axum, backends, times, state, router,
}

bytes : (s : Str) → all (λ c. ltb c 256) s ≡ true → All IsByte s
unfolding all
bytes [] h = tt
bytes (c ∷ s) h = (ground arith, bytes s (ground arith))

abbrev core : Request
core = core_request (http_route (text "/api/v2") (text "http://b")) request []

handle_request-Answered_example :
    Answered sample_json axum backends router times
      (Passed sample_json axum backends router times request state)
      request
      state
      (Handler.handle_request sample_json axum backends router times request state)
handle_request-Answered_example =
    handle_request-Answered sample_json axum backends router times request state

header_bytes : All (λ h. All IsByte h.1) core.metadata.headers
unfolding core_request all text
header_bytes = (bytes (text "Bearer k1") refl, (bytes (text "1.2.3.4") refl, tt))

key_bytes : All (All IsByte) (text "k1" ∷ [])
unfolding all text
key_bytes = (bytes (text "k1") refl, tt)

handle_request-ok_iff_example :
    (Auth.handle_request sample_json
        (settings_with sample_json sample_laws true (text "k1" ∷ []))
        core
      ≡ ok core)
    ↔ ((core ≡ core)
        × Presents sample_json sample_laws
            (text "k1" ∷ [])
            (Auth.find_header (text "authorization") core.metadata.headers))
handle_request-ok_iff_example =
    Auth.Tokens.handle_request-ok_iff sample_json sample_laws (text "k1") [] core core header_bytes
      key_bytes

passes : (Chain.handle_request sample_json (chain_of sample_json section []) 5 core).0 ≡ ok core
unfolding Chain.handle_request chain_of Chain.middleware_request Auth.handle_request Auth.api_keys
    Auth.any_key Auth.validate_token Auth.find_header Auth.constant_time_eq Auth.fold_difference
    RateLimit.handle_request RateLimit.is_rate_limited RateLimit.make_room RateLimit.timestamps_of
    RateLimit.contains_key RateLimit.put RateLimit.recent RateLimit.setting sample_json lookup
    str_eq eq_ignore_ascii_case to_ascii_lowercase lower_byte starts_with text core_request retain
passes = refl

route_found :
    route (new routes) (text "GET") (text "/api/v2/users")
    ≡ some (http_route (text "/api/v2") (text "http://b"))
unfolding route new find accepts prefix_matches allows_method is_valid_method any all text str_eq
    starts_with ends_with_byte to_ascii_uppercase upper_byte sort_desc insert_desc is_empty
route_found = refl

route-IsChosen_example :
    IsChosen routes
      (text "GET")
      (text "/api/v2/users")
      (http_route (text "/api/v2") (text "http://b"))
route-IsChosen_example =
    route-IsChosen routes (text "GET") (text "/api/v2/users")
      (http_route (text "/api/v2") (text "http://b")) route_found

http_request-ok_iff_example :
    ((req : _) × (http_request
          (text "GET")
          (text "http://b/")
          (text "/users")
          none
          request.headers
          []
          5
        ≡ ok req))
    ↔ IsFit (text "http://b/") (text "/users") none
http_request-ok_iff_example =
    http_request-ok_iff (text "GET") (text "http://b/") (text "/users") none request.headers [] 5

abbrev sent : UpstreamRequest
sent = record {
  method = text "GET";
  url = trim_end_byte b'/' (text "http://b/") ++ text "/users";
  timeout_secs = 5;
  headers = forward_headers ("host" ∷ "content-length" ∷ []) request.headers;
  body = [];
}

leaves :
    http_request (text "GET") (text "http://b/") (text "/users") none request.headers [] 5 ≡ ok sent
unfolding http_request path_contains_traversal path_is_safe decode_until_stable decode_round
    replace_escape has_dotdot split_byte is_ascii_control to_ascii_lowercase lower_byte starts_with
    text any str_eq
leaves = refl

http_request-Carries_example :
    Carries
      (upstream_url (text "http://b/") (text "/users") none)
      (text "GET")
      []
      5
      ("host" ∷ "content-length" ∷ [])
      []
      request.headers
      sent
http_request-Carries_example =
    http_request-Carries (text "GET") (text "http://b/") (text "/users") none request.headers [] 5
      sent leaves

-- An http crate that knows the status codes.
abbrev strict_axum : Axum
strict_axum = record {
  builder = λ status headers body.
      if leb 100 status && leb status 999
      then some (record { status = status; headers = headers; body = body })
      else none;
  into_response = axum.into_response;
  is_header_name = axum.is_header_name;
  is_header_value = axum.is_header_value;
  is_method = axum.is_method;
  accepts_upgrade = axum.accepts_upgrade;
  upgrade_response = axum.upgrade_response;
}

strict_laws : AxumLaws strict_axum
strict_laws = record {
  into_response_status = λ status headers body. refl;
  upgrade_status = λ url timeout. refl;
  builder_status = λ status headers body response h. (ground arith, ground arith, ground arith);
}

handle_request-IsReported_example :
    (response : HttpResponse) × (after : AppState sample_json.Value) × (sample : Sample)
    × (Handler.handle_request sample_json strict_axum backends router times request state
        ≡ some (response, after))
    × (after.metrics ≡ record_request 1000 sample state.metrics)
    × ((response.status ≡ sample.status_code)
        ⊎ ((response.status ≡ 500)
            × (headers : List Header) × (body : Str) × (strict_axum.builder sample.status_code
                  headers body
                ≡ none)))
handle_request-IsReported_example =
    handle_request-IsReported sample_json strict_axum strict_laws backends router times request
      state
