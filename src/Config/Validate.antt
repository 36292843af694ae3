-- ===== src/Config/Validate.antt =====
-- `GatewayConfig::validate` of src/config/mod.rs: the checks in the order of the source.
use iron_babel.Base.{Bool, true, false, not, List, [], ◌∷◌, ◌++◌, ◌==◌, if◌then◌else◌}
use iron_babel.Text.{Str, text, is_blank, is_empty, starts_with}
use iron_babel.Error.{Error, Checked, ok, ◌>>◌, reject_if}
use iron_babel.Config.Types.{
  TransportConfig, http, zmq, graphql, grpc, web_socket, mqtt, amqp, RouteConfig, ListenerConfig,
  zmq_pull, mqtt_sub, amqp_consume, RateLimitConfig, GatewayConfig,
}
use iron_babel.Config.Checks.{
  transport_timeout_secs, validate_http_url, validate_ws_url, validate_mqtt_broker_url,
  validate_mqtt_topic, validate_mqtt_qos, validate_amqp_broker_url,
}

unfoldable pub validate_rate_limit : RateLimitConfig → Checked
validate_rate_limit r =
    if r.enabled
    then (do
      reject_if (r.requests_per_window == 0) (
          Error.config (
            text "rate_limit.requests_per_window must be at least 1 when rate limiting is enabled"))
      reject_if (r.window_secs == 0) (
          Error.config
            (text "rate_limit.window_secs must be at least 1 when rate limiting is enabled")))
    else ok tt

-- The `match &route.transport` of the loop over the routes.
unfoldable pub validate_transport : Str → TransportConfig → Checked
validate_transport path (http cfg) = validate_http_url cfg.url path
validate_transport path (graphql cfg) = validate_http_url cfg.url path
validate_transport path (grpc cfg) = validate_http_url cfg.url path
validate_transport path (web_socket cfg) = validate_ws_url cfg.url path
validate_transport path (mqtt cfg) = do
  validate_mqtt_broker_url cfg.broker_url path
  validate_mqtt_topic cfg.topic path
  validate_mqtt_qos cfg.qos path
validate_transport path (amqp cfg) = do
  validate_amqp_broker_url cfg.broker_url path
  reject_if (is_blank cfg.routing_key)
      (Error.config (path ++ text ": AMQP routing_key must not be empty"))
validate_transport path (zmq cfg) =
    reject_if (is_blank cfg.address)
      (Error.config (text "ZMQ route '" ++ (path ++ text "': address must not be empty")))

unfoldable pub validate_route : RouteConfig → Checked
validate_route route = do
  reject_if (is_empty route.path) (Error.config (text "route path must not be empty"))
  reject_if (not (starts_with (text "/") route.path))
      (Error.config (text "route path '" ++ (route.path ++ text "' must start with '/'")))
  reject_if (transport_timeout_secs route.transport == 0) (
      Error.config (
        text "route '"
        ++ (route.path ++ text "': timeout_secs must be at least 1 (0 times out immediately)")))
  validate_transport route.path route.transport

unfoldable pub validate_routes : List RouteConfig → Checked
validate_routes [] = ok tt
validate_routes (route ∷ routes) = let rest = validate_routes routes in validate_route route >> rest

unfoldable pub validate_topics : List Str → Checked
validate_topics [] = ok tt
validate_topics (topic ∷ topics) =
    let rest = validate_topics topics in
    validate_mqtt_topic topic (text "mqtt_sub listener topic") >> rest

abbrev pub no_topics : List Str → Bool
no_topics [] = true
no_topics (_ ∷ _) = false

unfoldable pub validate_listener : ListenerConfig → Checked
validate_listener (zmq_pull cfg) = do
  reject_if (is_blank cfg.bind)
      (Error.config (text "ZMQ pull listener: bind address must not be empty"))
  validate_http_url cfg.forward_to (text "zmq_pull listener forward_to")
validate_listener (mqtt_sub cfg) = do
  validate_mqtt_broker_url cfg.broker_url (text "mqtt_sub listener broker_url")
  reject_if (no_topics cfg.topics)
      (Error.config (text "mqtt_sub listener: topics must not be empty"))
  validate_topics cfg.topics
  validate_mqtt_qos cfg.qos (text "mqtt_sub listener qos")
  validate_http_url cfg.forward_to (text "mqtt_sub listener forward_to")
validate_listener (amqp_consume cfg) = do
  validate_amqp_broker_url cfg.broker_url (text "amqp_consume listener broker_url")
  reject_if (is_blank cfg.queue)
      (Error.config (text "amqp_consume listener: queue must not be empty"))
  validate_http_url cfg.forward_to (text "amqp_consume listener forward_to")

unfoldable pub validate_listeners : List ListenerConfig → Checked
validate_listeners [] = ok tt
validate_listeners (l ∷ ls) = let rest = validate_listeners ls in validate_listener l >> rest

unfoldable pub validate : {V : Type 0} → GatewayConfig V → Checked
validate config = do
  reject_if (is_blank config.host) (Error.config (text "host must not be empty"))
  reject_if (config.port == 0) (Error.config (text "port must be between 1 and 65535"))
  validate_rate_limit config.middleware.rate_limit
  validate_routes config.routes
  validate_listeners config.listeners
