-- ===== src/Config/Valid.antt =====
-- When a configuration is valid, described without the checks of `validate`.
use iron_babel.Base.{◌≤◌, ◌<◌, ◌≡◌, ◌≢◌, refl, ◌↔◌, true, false, List, [], ◌∷◌, arith, All}
use iron_babel.Text.{Str, text, is_blank, is_empty, starts_with}
use iron_babel.Error.{ok}
use iron_babel.Config.Types.{
  TransportConfig, http, zmq, graphql, grpc, web_socket, mqtt, amqp, RouteConfig, ListenerConfig,
  zmq_pull, mqtt_sub, amqp_consume, GatewayConfig,
}
use iron_babel.Config.Checks.{transport_timeout_secs, validate_mqtt_topic, validate_mqtt_qos}
use iron_babel.Config.Urls.{
  IsHttpUrl, IsWsUrl, IsMqttUrl, IsAmqpUrl, validate_http_url_iff, validate_ws_url_iff,
  validate_mqtt_broker_url_iff, validate_amqp_broker_url_iff,
}
use iron_babel.Config.Validate.{
  validate_rate_limit, validate_transport, validate_route, validate_routes, no_topics,
  validate_topics, validate_listener, validate_listeners, validate,
}

-- More than white space.
abbrev pub NotBlank : Str → Type 0
NotBlank s = is_blank s ≡ false

abbrev pub IsValidTransport : TransportConfig → Type 0
IsValidTransport (http cfg) = IsHttpUrl cfg.url
IsValidTransport (zmq cfg) = NotBlank cfg.address
IsValidTransport (graphql cfg) = IsHttpUrl cfg.url
IsValidTransport (grpc cfg) = IsHttpUrl cfg.url
IsValidTransport (web_socket cfg) = IsWsUrl cfg.url
IsValidTransport (mqtt cfg) = IsMqttUrl cfg.broker_url × NotBlank cfg.topic × (cfg.qos ≤ 2)
IsValidTransport (amqp cfg) = IsAmqpUrl cfg.broker_url × NotBlank cfg.routing_key

pub record IsValidRoute (r : RouteConfig) : Type 0 where
  pub absolute : (rest : Str) × (r.path ≡ b'/' ∷ rest)
  pub timeout : 0 < transport_timeout_secs r.transport
  pub transport : IsValidTransport r.transport

abbrev pub IsValidListener : ListenerConfig → Type 0
IsValidListener (zmq_pull cfg) = NotBlank cfg.bind × IsHttpUrl cfg.forward_to
IsValidListener (mqtt_sub cfg) =
    IsMqttUrl cfg.broker_url
    × (cfg.topics ≢ [])
    × All NotBlank cfg.topics
    × (cfg.qos ≤ 2)
    × IsHttpUrl cfg.forward_to
IsValidListener (amqp_consume cfg) =
    IsAmqpUrl cfg.broker_url × NotBlank cfg.queue × IsHttpUrl cfg.forward_to

pub record IsValid {V : Type 0} (c : GatewayConfig V) : Type 0 where
  pub host : NotBlank c.host
  pub port : 0 < c.port
  pub window :
      c.middleware.rate_limit.enabled ≡ true
      → (0 < c.middleware.rate_limit.requests_per_window)
        × (0 < c.middleware.rate_limit.window_secs)
  pub routes : All IsValidRoute c.routes
  pub listeners : All IsValidListener c.listeners

validate_transport_iff :
    (path : Str) (t : TransportConfig) → (validate_transport path t ≡ ok tt) ↔ IsValidTransport t
unfolding validate_transport validate_mqtt_topic validate_mqtt_qos
validate_transport_iff path (http cfg) = validate_http_url_iff cfg.url path
validate_transport_iff path (graphql cfg) = validate_http_url_iff cfg.url path
validate_transport_iff path (grpc cfg) = validate_http_url_iff cfg.url path
validate_transport_iff path (web_socket cfg) = validate_ws_url_iff cfg.url path
validate_transport_iff path (zmq cfg) = ground arith
validate_transport_iff path (mqtt cfg) =
    ground (arith, validate_mqtt_broker_url_iff cfg.broker_url path)
validate_transport_iff path (amqp cfg) =
    ground (arith, validate_amqp_broker_url_iff cfg.broker_url path)

absolute_of_starts : (p : Str) → starts_with (text "/") p ≡ true → (rest : Str) × (p ≡ b'/' ∷ rest)
unfolding starts_with text
absolute_of_starts [] h = cc
absolute_of_starts (c ∷ p) h = (p, ground arith)

starts_of_absolute :
    (p : Str)
    → ((rest : Str) × (p ≡ b'/' ∷ rest))
    → (starts_with (text "/") p ≡ true) × (is_empty p ≡ false)
unfolding starts_with text is_empty
starts_of_absolute p (rest, e) = rw e (refl, refl)

validate_route_iff : (r : RouteConfig) → (validate_route r ≡ ok tt) ↔ IsValidRoute r
unfolding validate_route
validate_route_iff r = (
  λ h. record {
    absolute = absolute_of_starts r.path (ground arith);
    timeout = ground arith;
    transport = (validate_transport_iff r.path r.transport).0 (ground arith);
  },
  λ v.
      let (begins, filled) = starts_of_absolute r.path v.absolute in
      let passed = (validate_transport_iff r.path r.transport).1 v.transport in ground arith,
)

validate_routes_iff : (rs : List RouteConfig) → (validate_routes rs ≡ ok tt) ↔ All IsValidRoute rs
unfolding validate_routes
validate_routes_iff [] = ground arith
validate_routes_iff (r ∷ rs) = ground (arith, validate_route_iff r, validate_routes_iff rs)

validate_topics_iff : (ts : List Str) → (validate_topics ts ≡ ok tt) ↔ All NotBlank ts
unfolding validate_topics validate_mqtt_topic
validate_topics_iff [] = ground arith
validate_topics_iff (t ∷ ts) = ground (arith, validate_topics_iff ts)

no_topics_iff : (ts : List Str) → (no_topics ts ≡ false) ↔ (ts ≢ [])
no_topics_iff [] = (λ h. cc, λ h. absurd (h refl))
no_topics_iff (t ∷ ts) = (λ _. cc, λ _. refl)

validate_listener_iff : (l : ListenerConfig) → (validate_listener l ≡ ok tt) ↔ IsValidListener l
unfolding validate_listener validate_mqtt_qos
validate_listener_iff (zmq_pull cfg) =
    ground (arith, validate_http_url_iff cfg.forward_to (text "zmq_pull listener forward_to"))
validate_listener_iff (mqtt_sub cfg) = ground (
  arith,
  validate_mqtt_broker_url_iff cfg.broker_url (text "mqtt_sub listener broker_url"),
  no_topics_iff cfg.topics,
  validate_topics_iff cfg.topics,
  validate_http_url_iff cfg.forward_to (text "mqtt_sub listener forward_to"),
)
validate_listener_iff (amqp_consume cfg) = ground (
  arith,
  validate_http_url_iff cfg.forward_to (text "amqp_consume listener forward_to"),
  validate_amqp_broker_url_iff cfg.broker_url (text "amqp_consume listener broker_url"),
)

validate_listeners_iff :
    (ls : List ListenerConfig) → (validate_listeners ls ≡ ok tt) ↔ All IsValidListener ls
unfolding validate_listeners
validate_listeners_iff [] = ground arith
validate_listeners_iff (l ∷ ls) = ground (arith, validate_listener_iff l, validate_listeners_iff ls)

-- `validate` returns Ok exactly on the valid configurations.
pub validate_iff : {V : Type 0} (c : GatewayConfig V) → (validate c ≡ ok tt) ↔ IsValid c
unfolding validate validate_rate_limit
validate_iff c = ground (arith, validate_routes_iff c.routes, validate_listeners_iff c.listeners)
