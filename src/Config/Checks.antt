-- ===== src/Config/Checks.antt =====
-- src/config/mod.rs: the helpers that check one value, which return at the first fault.
use iron_babel.Base.{ℕ, Bool, not, ◌&&◌, ◌||◌, ◌++◌, ltb}
use iron_babel.Text.{Str, text, is_blank, starts_with}
use iron_babel.Error.{Error, Checked, ◌>>◌, reject_if}
use iron_babel.Config.Types.{TransportConfig, http, zmq, graphql, grpc, web_socket, mqtt, amqp}

unfoldable pub transport_timeout_secs : TransportConfig → ℕ
transport_timeout_secs (http cfg) = cfg.timeout_secs
transport_timeout_secs (zmq cfg) = cfg.timeout_secs
transport_timeout_secs (graphql cfg) = cfg.timeout_secs
transport_timeout_secs (grpc cfg) = cfg.timeout_secs
transport_timeout_secs (web_socket cfg) = cfg.timeout_secs
transport_timeout_secs (mqtt cfg) = cfg.timeout_secs
transport_timeout_secs (amqp cfg) = cfg.timeout_secs

unfoldable pub validate_http_url : Str → Str → Checked
validate_http_url url context = do
  reject_if (is_blank url) (Error.config (context ++ text ": URL must not be empty"))
  reject_if (not (starts_with (text "http://") url) && not (starts_with (text "https://") url)) (
      Error.config
        (context ++ (text ": URL '" ++ (url ++ text "' must start with http:// or https://"))))

is_ws_scheme : Str → Bool
is_ws_scheme url =
    starts_with (text "ws://") url
    || starts_with (text "wss://") url
    || (starts_with (text "http://") url || starts_with (text "https://") url)

unfoldable pub validate_ws_url : Str → Str → Checked
unfolding is_ws_scheme
validate_ws_url url context = do
  reject_if (is_blank url) (Error.config (context ++ text ": URL must not be empty"))
  reject_if (not (is_ws_scheme url)) (
      Error.config (
        context
        ++ (text ": WebSocket URL '"
            ++ (url ++ text "' must start with ws://, wss://, http://, or https://"))))

is_mqtt_scheme : Str → Bool
is_mqtt_scheme url =
    starts_with (text "mqtt://") url
    || starts_with (text "mqtts://") url
    || (starts_with (text "tcp://") url || starts_with (text "ssl://") url)

unfoldable pub validate_mqtt_broker_url : Str → Str → Checked
unfolding is_mqtt_scheme
validate_mqtt_broker_url url context = do
  reject_if (is_blank url) (Error.config (context ++ text ": broker URL must not be empty"))
  reject_if (not (is_mqtt_scheme url)) (
      Error.config (
        context
        ++ (text ": MQTT broker URL '"
            ++ (url ++ text "' must start with mqtt://, mqtts://, tcp://, or ssl://"))))

unfoldable pub validate_mqtt_topic : Str → Str → Checked
validate_mqtt_topic topic context =
    reject_if (is_blank topic) (Error.config (context ++ text ": MQTT topic must not be empty"))

unfoldable pub validate_mqtt_qos : ℕ → Str → Checked
validate_mqtt_qos qos context =
    reject_if (ltb 2 qos) (Error.config (context ++ text ": MQTT QoS must be 0, 1, or 2"))

unfoldable pub validate_amqp_broker_url : Str → Str → Checked
validate_amqp_broker_url url context = do
  reject_if (is_blank url) (Error.config (context ++ text ": broker URL must not be empty"))
  reject_if (not (starts_with (text "amqp://") url || starts_with (text "amqps://") url)) (
      Error.config (
        context
        ++ (text ": AMQP broker URL '" ++ (url ++ text "' must start with amqp:// or amqps://"))))
