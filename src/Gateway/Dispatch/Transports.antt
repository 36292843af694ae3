-- ===== src/Gateway/Dispatch/Transports.antt =====
-- The dispatch of src/core/gateway.rs on the transports of src/gateway.
use iron_babel.Base.{ℕ, [], ◌≡◌}
use iron_babel.Upstream.{Client}
use iron_babel.Gateway.{Axum, Backends}
use iron_babel.Gateway.Dispatch.{Outcome}
use iron_babel.Transport.Zmq.{Socket, forward_req_rep, forward_push, forward_pub}
use iron_babel.Transport.Mqtt
use iron_babel.Transport.Amqp
use iron_babel.Transport.Amqp.{Lapin}

-- What one request reaches of each client library, and the value of the MQTT id counter.
pub record Libraries : Type 1 where
  pub client : Client
  pub socket : Socket
  pub connect : Mqtt.Publishing.Connect
  pub counter : ℕ
  pub lapin : Lapin

-- The gateways of src/gateway behind the handler's interface.
abbrev pub transports : Libraries → Backends
transports libs = record {
  send = libs.client;
  forward_req_rep = forward_req_rep libs.socket;
  forward_push = forward_push libs.socket;
  forward_pub = forward_pub libs.socket;
  mqtt_publish = λ cfg body. (Mqtt.Publishing.publish libs.connect cfg body libs.counter).0;
  amqp_publish = Amqp.publish libs.lapin;
}

module _ (axum : Axum) (libs : Libraries) where
  -- The request is recorded and answered with 202.
  abbrev pub IsAccepted : Outcome → Type 0
  IsAccepted o = (o.status ≡ 202) × (o.response ≡ axum.into_response 202 [] [])
