-- ===== src/Protocols.antt =====
-- src/protocols and `build_protocols` of src/core/gateway.rs: the codecs, by the protocol's name.
pub mod Codecs
pub mod Building
use iron_babel.Base.{
  ℕ, ◌*◌, Bool, true, false, List, [], ◌∷◌, ◌⊎◌, inl, inr, ltb, if◌then◌else◌, length, ◌++◌, retain,
}
use iron_babel.Text.{Str, text, str_eq, is_empty}
use iron_babel.Error.{Error, Result, ok, err, ◌>>=◌}
use iron_babel.Json.{Json}
use iron_babel.Config.Types.{ProtocolConfig}
use iron_babel.Grpc.{encode_grpc_frame, decode_grpc_frames}
use iron_babel.Gateway.Dispatch.{graphql_encode}

-- The implementations of the trait `Protocol`.
pub data Protocol : Type 0 where
  http grpc graphql amqp mqtt web_socket zmq : Protocol

unfoldable pub name : Protocol → Str
name Protocol.http = text "http"
name Protocol.grpc = text "grpc"
name Protocol.graphql = text "graphql"
name Protocol.amqp = text "amqp"
name Protocol.mqtt = text "mqtt"
name Protocol.web_socket = text "websocket"
name Protocol.zmq = text "zmq"

-- `MAX_BODY_SIZE`, `MAX_MESSAGE_SIZE`, `MAX_PACKET_SIZE` and `MAX_FRAME_SIZE`.
abbrev pub max_size : ℕ
max_size = 10 * 1024 * 1024

unfoldable pub bounded : Str → Str → Result Str
bounded what data_bytes =
    if ltb max_size (length data_bytes) then err (Error.protocol what) else ok data_bytes

unfoldable pub http_encode : Str → Result Str
http_encode bytes = bounded (text "body too large") bytes

unfoldable pub http_decode : Str → Result Str
http_decode bytes = bounded (text "body too large") bytes

unfoldable pub amqp_encode : Str → Result Str
amqp_encode bytes = bounded (text "AMQP message too large") bytes

unfoldable pub amqp_decode : Str → Result Str
amqp_decode bytes = bounded (text "AMQP message too large") bytes

unfoldable pub mqtt_encode : Str → Result Str
mqtt_encode bytes = bounded (text "MQTT packet too large") bytes

unfoldable pub mqtt_decode : Str → Result Str
mqtt_decode bytes = bounded (text "MQTT packet too large") bytes

unfoldable pub zmq_encode : Str → Result Str
zmq_encode bytes = bounded (text "ZMQ frame too large") bytes

unfoldable pub zmq_decode : Str → Result Str
zmq_decode bytes = bounded (text "ZMQ frame too large") bytes

unfoldable pub web_socket_encode : Str → Result Str
web_socket_encode bytes = ok bytes

unfoldable pub web_socket_decode : Str → Result Str
web_socket_decode bytes = ok bytes

unfoldable pub grpc_encode : Str → Result Str
grpc_encode bytes = ok (encode_grpc_frame bytes)

unfoldable pub grpc_decode : Str → Result Str
grpc_decode bytes = decode_grpc_frames bytes

module _ (J : Json) where
  valid_json : Str → Str ⊎ J.Value → Result Str
  valid_json data_bytes (inl e) =
      err (Error.graphql (text "GraphQL response is not valid JSON: " ++ e))
  valid_json data_bytes (inr value) = ok data_bytes

  unfoldable pub graphql_decode : Str → Result Str
  unfolding valid_json
  graphql_decode data_bytes =
      if is_empty data_bytes then ok data_bytes else valid_json data_bytes (J.from_slice data_bytes)

  -- The methods of the trait.
  unfoldable pub encode : Protocol → Str → Result Str
  encode Protocol.http = http_encode
  encode Protocol.grpc = grpc_encode
  encode Protocol.graphql = graphql_encode J
  encode Protocol.amqp = amqp_encode
  encode Protocol.mqtt = mqtt_encode
  encode Protocol.web_socket = web_socket_encode
  encode Protocol.zmq = zmq_encode

  unfoldable pub decode : Protocol → Str → Result Str
  decode Protocol.http = http_decode
  decode Protocol.grpc = grpc_decode
  decode Protocol.graphql = graphql_decode
  decode Protocol.amqp = amqp_decode
  decode Protocol.mqtt = mqtt_decode
  decode Protocol.web_socket = web_socket_decode
  decode Protocol.zmq = zmq_decode

-- The `match` on the name; the constructors of the codecs do not fail.
unfoldable pub protocol_of : Str → Result Protocol
protocol_of s =
    if str_eq s (text "http")
    then ok Protocol.http
    else if str_eq s (text "grpc")
    then ok Protocol.grpc
    else if str_eq s (text "graphql")
    then ok Protocol.graphql
    else if str_eq s (text "amqp")
    then ok Protocol.amqp
    else if str_eq s (text "mqtt")
    then ok Protocol.mqtt
    else if str_eq s (text "websocket")
    then ok Protocol.web_socket
    else if str_eq s (text "zmq")
    then ok Protocol.zmq
    else err (Error.protocol (text "Unsupported protocol: " ++ s))

-- `collect` into a `Result`: the first error ends it.
unfoldable pub collect_protocols : {V : Type 0} → List (ProtocolConfig V) → Result (List Protocol)
collect_protocols [] = ok []
collect_protocols (c ∷ configs) = do
  p ← protocol_of c.name
  ps ← collect_protocols configs
  ok (p ∷ ps)

unfoldable pub build_protocols : {V : Type 0} → List (ProtocolConfig V) → Result (List Protocol)
build_protocols configs = collect_protocols (retain (λ c. c.enabled) configs)
