-- ===== src/Examples/Brokers.antt =====
-- The MQTT and AMQP transports over concrete client libraries.
use iron_babel.Base.{
  List, ℕ, ◌≡◌, refl, ◌≤◌, Bool, true, false, none, some, [], ◌∷◌, ◌++◌, inl, inr, arith, length,
}
use iron_babel.Text.{Str, text, decimal, is_empty, strip_prefix}
use iron_babel.Error.{ok}
use iron_babel.Config.Types.{
  MqttSubListenerConfig, MqttTransportConfig, AmqpTransportConfig, AmqpConsumeListenerConfig,
}
use iron_babel.Upstream.{Client}
use iron_babel.Gateway.Dispatch.Transports.{Libraries}
use iron_babel.Transport.Zmq.{Socket}
use iron_babel.Transport.Mqtt.{BrokerEndpoint, QoS, Publish, Poll, Event, parse_broker_url}
use iron_babel.Transport.Mqtt.Subscriber.{Start, publish_post, run_sub_session}
use iron_babel.Transport.Mqtt.Receiving.{run_sub_session-effects}
use iron_babel.Transport.Mqtt.Publishing.{Connect}
use iron_babel.Transport.Mqtt.Url.{mqtts, IsHost, parse_broker_url-print}
use iron_babel.Transport.Amqp
use iron_babel.Transport.Amqp.{Lapin, LapinLaws, Delivery, Answer, properties_of}
use iron_babel.Transport.Amqp.Confirmed.{IsAcked, publish-IsAcked}
use iron_babel.Transport.Amqp.Poison.{Deliveries, last, again, Deliveries-length}
use iron_babel.Examples.SampleGateway.{backends}

abbrev broker_url : Str
broker_url = text "mqtts://" ++ (text "broker" ++ b':' ∷ decimal 8883)

broker-IsHost : IsHost (text "broker")
unfolding text is_empty strip_prefix
broker-IsHost = record {
  bytes = (
    (omega arith, omega arith, omega arith),
    (
      (omega arith, omega arith, omega arith),
      (
        (omega arith, omega arith, omega arith),
        (
          (omega arith, omega arith, omega arith),
          ((omega arith, omega arith, omega arith), ((omega arith, omega arith, omega arith), tt)),
        ),
      ),
    ),
  );
  not_bracketed = refl;
  not_empty = refl;
}

parse_broker_url-print_example :
    parse_broker_url broker_url ≡ ok (record { host = text "broker"; port = 8883; tls = true })
parse_broker_url-print_example =
    parse_broker_url-print (text "mqtts://") (text "broker") true 8883 mqtts broker-IsHost
      (omega arith)

-- The broker acknowledges the message at QoS 1.
abbrev connect : Connect
connect = λ options topic qos retain body. record {
  queued = some (inr tt);
  polls =
      inr Event.outgoing_publish ∷ inr Event.incoming_pub_ack ∷ inr Event.outgoing_disconnect ∷ [];
  disconnect = some (inr tt);
}

-- A channel is a Boolean: whether it is in confirm mode. So is a confirmation: whether it is an ack.
abbrev lapin : Lapin
lapin = record {
  Connection = Unit;
  Channel = Bool;
  Confirm = Bool;
  Confirmation = Bool;
  connect = λ url. some (inr tt);
  create_channel = λ c. some (inr false);
  confirm_select = λ c. some (inr true);
  basic_publish = λ c exchange key mandatory body properties. some (inr c);
  confirm = λ c. some (inr c);
  is_ack = λ a. a;
  is_nack = λ a. false;
  take_message = λ a. none;
  close = λ c code reason. some (inr tt);
  basic_consume = λ c queue tag no_ack. some (inr []);
}

lapin_laws : LapinLaws lapin
lapin_laws = record {
  InConfirmMode = λ c. c ≡ true;
  confirm_select-InConfirmMode = λ c c' e. cc;
  answered =
      λ c exchange key mandatory body properties pending answer mode published confirmed nack. cc;
}

abbrev socket : Socket
socket = record { connect = λ addr. inr tt; send = λ message. inr tt; recv = λ secs. none }

abbrev libs : Libraries
libs = record {
  client = backends.send;
  socket = socket;
  connect = connect;
  counter = 1;
  lapin = lapin;
}

abbrev mqtt_cfg : MqttTransportConfig
mqtt_cfg = record {
  broker_url = broker_url;
  topic = text "events";
  qos = 1;
  retain = false;
  client_id = none;
  timeout_secs = 10;
}

abbrev amqp_cfg : AmqpTransportConfig
amqp_cfg = record {
  broker_url = text "amqp://broker";
  exchange = [];
  routing_key = text "events";
  mandatory = true;
  persistent = true;
  content_type = none;
  timeout_secs = 10;
}

published : Amqp.publish lapin amqp_cfg (text "hi") ≡ ok tt
unfolding Amqp.publish Amqp.publish_future Amqp.check_confirmation
published = refl

publish-IsAcked_example : IsAcked lapin amqp_cfg (text "hi") lapin_laws
publish-IsAcked_example = publish-IsAcked lapin amqp_cfg (text "hi") lapin_laws published

abbrev consumer : AmqpConsumeListenerConfig
consumer = record {
  broker_url = text "amqp://broker";
  queue = text "jobs";
  consumer_tag = none;
  auto_ack = false;
  forward_to = text "http://target";
}

-- The target refuses every message.
abbrev refusing : Client
refusing = λ request. inl (text "refused")

abbrev delivered : Bool → ℕ → Delivery
delivered redelivered tag = record {
  exchange = [];
  routing_key = text "events";
  delivery_tag = tag;
  redelivered = redelivered;
  payload = text "hi";
}

twice : Deliveries refusing consumer (delivered false 1 ∷ delivered true 2 ∷ [])
unfolding Amqp.handle_delivery Amqp.answer_to Amqp.is_success
twice = again refl refl (last (delivered true 2))

Deliveries-length_example : length (delivered false 1 ∷ delivered true 2 ∷ []) ≤ 2
Deliveries-length_example =
    Deliveries-length refusing consumer (delivered false 1 ∷ delivered true 2 ∷ []) twice

-- A subscriber that receives one message before the connection breaks.
abbrev sub_config : MqttSubListenerConfig
sub_config = record {
  broker_url = text "mqtt://broker:1883";
  topics = text "a" ∷ [];
  qos = 1;
  client_id = some (text "me");
  forward_to = text "http://t";
}

abbrev received : Publish
received = record { topic = text "a"; qos = QoS.at_least_once; retain = false; payload = text "x" }

abbrev polled : List Poll
polled =
    inr (Event.incoming_publish received)
    ∷ inl (text "broken")
    ∷ inr (Event.incoming_publish received)
    ∷ []

abbrev session_start : Start
session_start = record {
  counter = 0;
  connect = λ options. record {
    subscribe = λ topic qos. some (inr tt);
    disconnect = some (inr tt);
    polls = polled;
  };
}

abbrev endpoint : BrokerEndpoint
endpoint = record { host = text "broker"; port = 1883; tls = false }

run_sub_session-effects_example :
    (run_sub_session sub_config endpoint QoS.at_least_once session_start).effects
    ≡ publish_post (text "http://t") received ∷ []
run_sub_session-effects_example =
    run_sub_session-effects sub_config endpoint QoS.at_least_once session_start
