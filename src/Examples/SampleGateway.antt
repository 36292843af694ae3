-- ===== src/Examples/SampleGateway.antt =====
-- A gateway with two routes, a token check and a limiter, and concrete backends.
use iron_babel.Base.{true, false, none, some, List, [], ◌∷◌, inr}
use iron_babel.Text.{Str, text}
use iron_babel.Error.{Error, ok, err}
use iron_babel.Config.Types.{RouteConfig, TransportConfig, MiddlewareSectionConfig, GatewayConfig}
use iron_babel.Router.{Router, new}
use iron_babel.Metrics
use iron_babel.Middleware.Chain.{build_middleware_chain}
use iron_babel.Examples.SampleJson.{Value, sample_json}
use iron_babel.Gateway.{Incoming, Axum, Backends, AppState, Times}

abbrev pub http_route : Str → Str → RouteConfig
http_route path url = record {
  path = path;
  methods = text "GET" ∷ [];
  transport = TransportConfig.http (record { url = url; timeout_secs = 5; strip_prefix = true });
}

abbrev pub routes : List RouteConfig
routes =
    http_route (text "/api") (text "http://a") ∷ http_route (text "/api/v2") (text "http://b") ∷ []

abbrev pub section : MiddlewareSectionConfig
section = record {
  auth = record { enabled = true; api_keys = text "k1" ∷ [] };
  rate_limit = record { enabled = true; requests_per_window = 2; window_secs = 60 };
  logging = record { enabled = false };
}

abbrev pub gateway_config : GatewayConfig Value
gateway_config = record {
  port = 8080;
  host = text "127.0.0.1";
  protocols = [];
  routes = routes;
  listeners = [];
  middleware = section;
}

abbrev pub bad_config : GatewayConfig Value
bad_config = record {
  port = 0;
  host = text "127.0.0.1";
  protocols = [];
  routes = routes;
  listeners = [];
  middleware = section;
}

abbrev pub request : Incoming
request = record {
  method = text "GET";
  path = text "/api/v2/users";
  query = none;
  headers =
      (text "Authorization", text "Bearer k1") ∷ (text "X-Forwarded-For", text "1.2.3.4") ∷ [];
  body = some [];
  remote_addr = text "10.0.0.1";
}

abbrev pub axum : Axum
axum = record {
  builder =
      λ status headers body. some (record { status = status; headers = headers; body = body });
  into_response = λ status headers body. record { status = status; headers = headers; body = body };
  is_header_name = λ n. true;
  is_header_value = λ v. true;
  is_method = λ m. true;
  accepts_upgrade = λ r. false;
  upgrade_response = λ url t. record { status = 101; headers = []; body = [] };
}

abbrev pub backends : Backends
backends = record {
  send = λ r. inr (record { status = 200; headers = []; body = inr (text "hello") });
  forward_req_rep = λ address body t. ok body;
  forward_push = λ address body. ok tt;
  forward_pub = λ address body topic. ok tt;
  mqtt_publish = λ cfg body. err (Error.protocol (text "no broker"));
  amqp_publish = λ cfg body. ok tt;
}

abbrev pub times : Times
times = record { now = 5; now_ms = 1000; latency_ms = 3 }

abbrev pub state : AppState sample_json.Value
state = record {
  metrics = Metrics.new;
  middleware = build_middleware_chain sample_json section;
  forwarded = [];
}

abbrev pub router : Router
router = new routes
