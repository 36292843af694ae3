-- ===== src/Transport/Mqtt.antt =====
-- src/gateway/mqtt.rs: the broker's URL, the publication of a message and the subscriber.
pub mod Publishing
pub mod Subscriber
pub mod Url
pub mod Delivery
pub mod Receiving
use iron_babel.Base.{
  ℕ, zero, Bool, true, false, ◌+◌, ◌%◌, ◌^◌, suc, ◌==◌, ◌||◌, Option, none, some, List, [], ◌∷◌,
  ◌++◌, ◌⊎◌, inl, inr, any, if◌then◌else◌,
}
use iron_babel.Text.{Str, text, is_empty, strip_prefix, parse_u16, decimal}
use iron_babel.Error.{Error, Result, Checked, ok, err}
use iron_babel.HttpGuard.{Header}
use iron_babel.Config.Types.{MqttTransportConfig, MqttSubListenerConfig}
use iron_babel.Upstream.{UpstreamRequest}
use iron_babel.Transport.{Call, Await, ◌>>=◌, awaited, timeout, post, Session}

pub record BrokerEndpoint : Type 0 where
  pub host : Str
  pub port : ℕ
  pub tls : Bool

pub data QoS : Type 0 where
  at_most_once at_least_once exactly_once : QoS

unfoldable pub qos_from_u8 : ℕ → Result QoS
qos_from_u8 zero = ok QoS.at_most_once
qos_from_u8 (suc zero) = ok QoS.at_least_once
qos_from_u8 (suc (suc zero)) = ok QoS.exactly_once
qos_from_u8 (suc (suc (suc _))) = err (Error.config (text "MQTT QoS must be 0, 1, or 2"))

unfoldable pub qos_to_u8 : QoS → ℕ
qos_to_u8 QoS.at_most_once = 0
qos_to_u8 QoS.at_least_once = 1
qos_to_u8 QoS.exactly_once = 2

-- The text before the first, and before the last, byte `b`, and the text after it.
unfoldable pub split_once : ℕ → Str → Option (Str × Str)
split_once b [] = none
split_once b (c ∷ s) =
    let rest = split_once b s in
    if c == b
    then some ([], s)
    else (elim rest [ none ↦ none | some parts ↦ some (c ∷ parts.0, parts.1) ])

unfoldable pub rsplit_once : ℕ → Str → Option (Str × Str)
rsplit_once b [] = none
rsplit_once b (c ∷ s) = elim (rsplit_once b s) [
  | some parts ↦ some (c ∷ parts.0, parts.1)
  | none ↦ if c == b then some ([], s) else none
]

with_port : Str → Str → Option (Str × ℕ)
with_port host digits = elim (parse_u16 digits) [ none ↦ none | some port ↦ some (host, port) ]

-- What follows the `[` of an address in brackets.
bracketed : Str → Option (Str × ℕ)
bracketed rest = elim (split_once b']' rest) [
  | none ↦ none
  | some parts ↦ elim (strip_prefix (text ":") parts.1) [
    | none ↦ none
    | some digits ↦ with_port parts.0 digits
  ]
]

plain : Str → Option (Str × ℕ)
plain input = elim (rsplit_once b':' input) [
  | none ↦ none
  | some parts ↦ if is_empty parts.0 then none else with_port parts.0 parts.1
]

unfoldable pub split_host_port : Str → Option (Str × ℕ)
unfolding with_port bracketed plain
split_host_port input = elim (strip_prefix (text "[") input) [
  | some rest ↦ bracketed rest
  | none ↦ plain input
]

-- Whether the scheme asks for TLS, and what follows it.
unfoldable pub scheme_of : Str → Option (Bool × Str)
scheme_of url = elim (strip_prefix (text "mqtt://") url) [
  | some rest ↦ some (false, rest)
  | none ↦ elim (strip_prefix (text "tcp://") url) [
    | some rest ↦ some (false, rest)
    | none ↦ elim (strip_prefix (text "mqtts://") url) [
      | some rest ↦ some (true, rest)
      | none ↦ elim (strip_prefix (text "ssl://") url) [
        | some rest ↦ some (true, rest)
        | none ↦ none
      ]
    ]
  ]
]

unfoldable pub has_path : Str → Bool
has_path rest =
    any (λ c. c == b'/') rest || (any (λ c. c == b'?') rest || any (λ c. c == b'#') rest)

endpoint_of : Str → Bool → Str → Result BrokerEndpoint
endpoint_of url tls rest =
    if is_empty rest
    then err (Error.config (text "MQTT broker URL must include a host"))
    else if has_path rest
    then err (
        Error.config
          (text "MQTT broker URL '" ++ (url ++ text "' must be in scheme://host:port form")))
    else (elim (split_host_port rest) [
      | none ↦ err (
          Error.config
            (text "MQTT broker URL '" ++ (url ++ text "' must include an explicit host and port")))
      | some hp ↦ ok (record { host = hp.0; port = hp.1; tls = tls })
    ])

unfoldable pub parse_broker_url : Str → Result BrokerEndpoint
unfolding endpoint_of
parse_broker_url url = elim (scheme_of url) [
  | none ↦ err (
      Error.config (
        text "MQTT broker URL '"
        ++ (url ++ text "' must start with mqtt://, mqtts://, tcp://, or ssl://")))
  | some parts ↦ endpoint_of url parts.0 parts.1
]

-- The id made of the counter's value, and the counter after `fetch_add`, which wraps.
unfoldable pub next_client_id : Str → ℕ → Str × ℕ
next_client_id prefix counter = (prefix ++ (text "-" ++ decimal counter), (counter + 1) % 2 ^ 64)

unfoldable pub client_id_or : Str → Option Str → ℕ → Str × ℕ
client_id_or prefix (some id) counter = (id, counter)
client_id_or prefix none counter = next_client_id prefix counter

-- `MqttOptions`, with what the code sets of it.
pub record MqttOptions : Type 0 where
  pub client_id : Str
  pub host : Str
  pub port : ℕ
  pub tls : Bool
  pub keep_alive_secs : Option ℕ

unfoldable pub mqtt_options : BrokerEndpoint → Str → MqttOptions
mqtt_options endpoint client_id = record {
  client_id = client_id;
  host = endpoint.host;
  port = endpoint.port;
  tls = endpoint.tls;
  keep_alive_secs = none;
}

unfoldable pub set_keep_alive : ℕ → MqttOptions → MqttOptions
set_keep_alive secs options = record {
  client_id = options.client_id;
  host = options.host;
  port = options.port;
  tls = options.tls;
  keep_alive_secs = some secs;
}

pub record Publish : Type 0 where
  pub topic : Str
  pub qos : QoS
  pub retain : Bool
  pub payload : Str

-- The events that the code tells apart.
pub data Event : Type 0 where
  outgoing_publish outgoing_disconnect incoming_pub_ack incoming_pub_comp : Event
  incoming_publish : Publish → Event
  other : Event

-- What `eventloop.poll()` gives: an event, or the text of an error.
abbrev pub Poll : Type 0
Poll = Str ⊎ Event

-- rumqttc: what a connection that publishes the message meets before the time limit.
pub record Link : Type 0 where
  pub queued : Call (Unit {0})
  pub polls : List Poll
  pub disconnect : Call (Unit {0})
