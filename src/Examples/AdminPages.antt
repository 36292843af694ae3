-- ===== src/Examples/AdminPages.antt =====
-- The guard of the admin pages at a request without a token.
use iron_babel.Base.{◌≡◌, refl, none, some, []}
use iron_babel.Text.{text, str_eq}
use iron_babel.Error.{Error, err}
use iron_babel.Json.{lookup}
use iron_babel.Middleware.Auth
use iron_babel.Middleware.Chain
use iron_babel.Gateway.{Incoming}
use iron_babel.Gateway.AdminGuard.{admin_request, admin_middleware}
use iron_babel.Gateway.AdminGuard.Refusal.{Page, admin_middleware-err}
use iron_babel.Examples.SampleJson.{sample_json}
use iron_babel.Examples.SampleGateway.{axum, state}

abbrev pub stranger : Incoming
stranger = record {
  method = text "GET";
  path = text "/admin/";
  query = none;
  headers = [];
  body = some [];
  remote_addr = text "10.0.0.9";
}

abbrev dashboard : Page sample_json axum 5
dashboard req st = (record { status = 200; headers = []; body = text "metrics" }, st)

abbrev blank : Page sample_json axum 5
blank req st = (record { status = 404; headers = []; body = [] }, st)

refused :
    (Chain.handle_request sample_json state.middleware 5 (admin_request stranger)).0
    ≡ err (Error.unauthorized (text "Missing Authorization header"))
unfolding Chain.handle_request Chain.build_middleware_chain Chain.chain_of Chain.middleware_request
    Auth.handle_request Auth.api_keys Auth.find_header sample_json lookup str_eq text admin_request
refused = refl

admin_middleware-err_example :
    admin_middleware sample_json axum 5 dashboard stranger state
    ≡ admin_middleware sample_json axum 5 blank stranger state
admin_middleware-err_example =
    admin_middleware-err sample_json axum 5 dashboard blank stranger state
      (Error.unauthorized (text "Missing Authorization header")) refused
