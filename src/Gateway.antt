-- ===== src/Gateway.antt =====
-- src/core/gateway.rs: the state and the interfaces of the request handler, and its helpers.
pub mod Dispatch
pub mod Handler
pub mod AdminGuard
pub mod Forwarding
pub mod Serving
pub mod Finalized
use iron_babel.Base.{
  ℕ, ◌≡◌, ◌≤◌, Bool, true, false, not, ◌&&◌, Option, none, some, List, [], ◌∷◌, ◌++◌, leb,
  if◌then◌else◌, retain,
}
use iron_babel.Text.{Str, text, eq_ignore_ascii_case, is_empty, strip_prefix, starts_with}
use iron_babel.Error.{Error, Result, Checked, ok, err}
use iron_babel.HttpGuard.{Header}
use iron_babel.Config.Types.{
  TransportConfig, http, zmq, graphql, grpc, web_socket, mqtt, amqp, MqttTransportConfig,
  AmqpTransportConfig,
}
use iron_babel.Json.{Json}
use iron_babel.Metrics.{MetricsStore}
use iron_babel.Middleware.{Response}
use iron_babel.Middleware.Chain
use iron_babel.Middleware.Chain.{Middleware}
use iron_babel.Upstream.{Client, UpstreamRequest}

pub record HttpResponse : Type 0 where
  pub status : ℕ
  pub headers : List Header
  pub body : Str

-- What the server hands to the handler: `headers` are those whose value `to_str` accepts, `body` is
-- what reading at most 10 MB of it gives, `remote_addr` the address of the socket.
pub record Incoming : Type 0 where
  pub method : Str
  pub path : Str
  pub query : Option Str
  pub headers : List Header
  pub body : Option Str
  pub remote_addr : Str

-- axum and the http crate: what they accept, and the responses that they build.
pub record Axum : Type 0 where
  pub builder : ℕ → List Header → Str → Option HttpResponse
  pub into_response : ℕ → List Header → Str → HttpResponse
  pub is_header_name : Str → Bool
  pub is_header_value : Str → Bool
  pub is_method : Str → Bool
  pub accepts_upgrade : Incoming → Bool
  pub upgrade_response : Str → ℕ → HttpResponse

-- The http crate keeps the status that it is given, and builds no response with another one than its
-- status codes.
pub record AxumLaws (axum : Axum) : Type 0 where
  pub into_response_status :
      (status : ℕ) (headers : List Header) (body : Str)
      → (axum.into_response status headers body).status ≡ status
  pub upgrade_status : (url : Str) (timeout : ℕ) → (axum.upgrade_response url timeout).status ≡ 101
  pub builder_status :
      (status : ℕ) (headers : List Header) (body : Str) (response : HttpResponse)
      → axum.builder status headers body ≡ some response
      → (response.status ≡ status) × (100 ≤ status) × (status ≤ 999)

-- What the transports' gateways offer the handler.
pub record Backends : Type 0 where
  pub send : Client
  pub forward_req_rep : Str → Str → ℕ → Result Str
  pub forward_push : Str → Str → Checked
  pub forward_pub : Str → Str → Option Str → Checked
  pub mqtt_publish : MqttTransportConfig → Str → Checked
  pub amqp_publish : AmqpTransportConfig → Str → Checked

-- A call of a backend with what it was given.
pub data Forwarded : Type 0 where
  http_sent : UpstreamRequest → Forwarded
  zmq_sent : Str → Str → Forwarded
  mqtt_sent : MqttTransportConfig → Str → Forwarded
  amqp_sent : AmqpTransportConfig → Str → Forwarded
  web_socket_opened : Str → Forwarded

-- The parts of `AppState` that a request changes, and the calls of the backends so far.
pub record AppState (V : Type 0) : Type 0 where
  pub metrics : MetricsStore
  pub middleware : List (Middleware V)
  pub forwarded : List Forwarded

-- The clocks as one request reads them: the limiter's, the epoch's, and the time that passed.
pub record Times : Type 0 where
  pub now : ℕ
  pub now_ms : ℕ
  pub latency_ms : ℕ

unfoldable pub is_forwarded_for : Header → Bool
is_forwarded_for h = eq_ignore_ascii_case h.0 (text "x-forwarded-for")

unfoldable pub set_forwarded_for : List Header → Str → List Header
unfolding is_forwarded_for
set_forwarded_for headers remote_addr =
    let kept = retain (λ h. not (is_forwarded_for h)) headers in
    if not (is_empty remote_addr) then kept ++ (text "x-forwarded-for", remote_addr) ∷ [] else kept

unfoldable pub transport_target : TransportConfig → Str
transport_target (http cfg) = cfg.url
transport_target (zmq cfg) = cfg.address
transport_target (graphql cfg) = cfg.url
transport_target (grpc cfg) = cfg.url
transport_target (web_socket cfg) = cfg.url
transport_target (mqtt cfg) = cfg.broker_url
transport_target (amqp cfg) = cfg.broker_url

unfoldable pub transport_timeout : TransportConfig → ℕ
transport_timeout (http cfg) = cfg.timeout_secs
transport_timeout (zmq cfg) = cfg.timeout_secs
transport_timeout (graphql cfg) = cfg.timeout_secs
transport_timeout (grpc cfg) = cfg.timeout_secs
transport_timeout (web_socket cfg) = cfg.timeout_secs
transport_timeout (mqtt cfg) = cfg.timeout_secs
transport_timeout (amqp cfg) = cfg.timeout_secs

module _ (J : Json) (axum : Axum) where
  status_of : Option ℕ → ℕ → ℕ
  status_of none status = status
  status_of (some s) status = if leb 100 s && leb s 999 then s else 500

  rebuilt : HttpResponse → Result Response → HttpResponse
  rebuilt response (ok r) = record {
    status = status_of r.metadata.status_code response.status;
    headers = retain (λ h. axum.is_header_name h.0 && axum.is_header_value h.1) r.metadata.headers;
    body = response.body;
  }
  rebuilt response (err e) = axum.into_response 500 [] []

  unfoldable pub finalize_response : List (Middleware J.Value) → HttpResponse → HttpResponse
  unfolding rebuilt status_of
  finalize_response middleware response = rebuilt response (
      Chain.handle_response J middleware (record {
        body = [];
        metadata = record {
          status_code = some response.status;
          headers = response.headers;
          duration = none;
        };
      }))
