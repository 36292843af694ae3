-- ===== src/Config/Types.antt =====
-- src/config/mod.rs: the configuration's types and defaults. `V` is `serde_json::Value`.
use iron_babel.Base.{ℕ, Bool, true, false, List, [], Option}
use iron_babel.Text.{Str}

pub record HttpTransportConfig : Type 0 where
  pub url : Str
  pub timeout_secs : ℕ
  pub strip_prefix : Bool

pub data ZmqPattern : Type 0 where
  req_rep push pub_sub : ZmqPattern

pub record ZmqTransportConfig : Type 0 where
  pub address : Str
  pub zmq_pattern : ZmqPattern
  pub timeout_secs : ℕ
  pub topic : Option Str

pub record GraphQlTransportConfig : Type 0 where
  pub url : Str
  pub timeout_secs : ℕ

pub record GrpcTransportConfig : Type 0 where
  pub url : Str
  pub timeout_secs : ℕ

pub record WebSocketTransportConfig : Type 0 where
  pub url : Str
  pub timeout_secs : ℕ

pub record MqttTransportConfig : Type 0 where
  pub broker_url : Str
  pub topic : Str
  pub qos : ℕ
  pub retain : Bool
  pub client_id : Option Str
  pub timeout_secs : ℕ

pub record AmqpTransportConfig : Type 0 where
  pub broker_url : Str
  pub exchange : Str
  pub routing_key : Str
  pub mandatory : Bool
  pub persistent : Bool
  pub content_type : Option Str
  pub timeout_secs : ℕ

pub data TransportConfig : Type 0 where
  http : HttpTransportConfig → TransportConfig
  zmq : ZmqTransportConfig → TransportConfig
  graphql : GraphQlTransportConfig → TransportConfig
  grpc : GrpcTransportConfig → TransportConfig
  web_socket : WebSocketTransportConfig → TransportConfig
  mqtt : MqttTransportConfig → TransportConfig
  amqp : AmqpTransportConfig → TransportConfig

pub record RouteConfig : Type 0 where
  pub path : Str
  pub methods : List Str
  pub transport : TransportConfig

pub record ZmqPullListenerConfig : Type 0 where
  pub bind : Str
  pub forward_to : Str

pub record MqttSubListenerConfig : Type 0 where
  pub broker_url : Str
  pub topics : List Str
  pub qos : ℕ
  pub client_id : Option Str
  pub forward_to : Str

pub record AmqpConsumeListenerConfig : Type 0 where
  pub broker_url : Str
  pub queue : Str
  pub consumer_tag : Option Str
  pub auto_ack : Bool
  pub forward_to : Str

pub data ListenerConfig : Type 0 where
  zmq_pull : ZmqPullListenerConfig → ListenerConfig
  mqtt_sub : MqttSubListenerConfig → ListenerConfig
  amqp_consume : AmqpConsumeListenerConfig → ListenerConfig

pub record AuthConfig : Type 0 where
  pub enabled : Bool
  pub api_keys : List Str

pub record RateLimitConfig : Type 0 where
  pub enabled : Bool
  pub requests_per_window : ℕ
  pub window_secs : ℕ

pub record LoggingConfig : Type 0 where
  pub enabled : Bool

pub record MiddlewareSectionConfig : Type 0 where
  pub auth : AuthConfig
  pub rate_limit : RateLimitConfig
  pub logging : LoggingConfig

pub record ProtocolConfig (V : Type 0) : Type 0 where
  pub name : Str
  pub enabled : Bool
  pub settings : V

pub record GatewayConfig (V : Type 0) : Type 0 where
  pub port : ℕ
  pub host : Str
  pub protocols : List (ProtocolConfig V)
  pub routes : List RouteConfig
  pub listeners : List ListenerConfig
  pub middleware : MiddlewareSectionConfig

abbrev pub default_timeout_secs : ℕ
default_timeout_secs = 30

abbrev pub default_requests_per_window : ℕ
default_requests_per_window = 100

abbrev pub default_window_secs : ℕ
default_window_secs = 60

abbrev pub default_true : Bool
default_true = true

abbrev pub default_rate_limit : RateLimitConfig
default_rate_limit = record {
  enabled = false;
  requests_per_window = default_requests_per_window;
  window_secs = default_window_secs;
}

abbrev pub default_middleware : MiddlewareSectionConfig
default_middleware = record {
  auth = record { enabled = false; api_keys = [] };
  rate_limit = default_rate_limit;
  logging = record { enabled = false };
}
