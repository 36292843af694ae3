-- ===== src/Transport/Mqtt/Subscriber.antt =====
-- src/gateway/mqtt.rs: the subscriber that posts the messages it receives.
use iron_babel.Base.{ℕ, true, false, none, some, List, [], ◌∷◌, inl, inr}
use iron_babel.Text.{Str, text, decimal}
use iron_babel.Error.{ok, err}
use iron_babel.HttpGuard.{Header}
use iron_babel.Config.Types.{MqttSubListenerConfig}
use iron_babel.Upstream.{UpstreamRequest}
use iron_babel.Transport.{Call, post, Session, running, over, before, returns_after, Round, listen}
use iron_babel.Transport.Mqtt.{
  BrokerEndpoint, QoS, qos_from_u8, qos_to_u8, parse_broker_url, client_id_or, MqttOptions,
  mqtt_options, set_keep_alive, Publish, Event, Poll,
}

-- rumqttc: how each subscription of a connection ends, and what it polls.
pub record Feed : Type 0 where
  pub subscribe : Str → QoS → Call (Unit {0})
  pub disconnect : Call (Unit {0})
  pub polls : List Poll

-- What a session meets: the id counter's value, and the client library.
pub record Start : Type 0 where
  pub counter : ℕ
  pub connect : MqttOptions → Feed

unfoldable pub publish_headers : Publish → List Header
publish_headers p =
    (text "x-mqtt-source", text "iron-babel-mqtt-listener")
    ∷ (text "x-mqtt-topic", p.topic)
    ∷ (text "x-mqtt-qos", decimal (qos_to_u8 p.qos))
    ∷ (text "x-mqtt-retain", elim (p.retain) [ true ↦ text "true" | false ↦ text "false" ])
    ∷ []

unfoldable pub publish_post : Str → Publish → UpstreamRequest
publish_post forward_to p = post forward_to (publish_headers p) p.payload

-- The loop over `eventloop.poll()`.
unfoldable pub receive : Str → List Poll → Session UpstreamRequest
receive forward_to [] = running
receive forward_to (inl e ∷ polls) = over
receive forward_to (inr (Event.incoming_publish p) ∷ polls) =
    before (publish_post forward_to p) (receive forward_to polls)
receive forward_to (inr _ ∷ polls) = receive forward_to polls

-- The loop over the topics, and the session after it.
unfoldable pub subscribe_all :
    QoS → Feed → List Str → Session UpstreamRequest → Session UpstreamRequest
subscribe_all qos feed [] next = next
subscribe_all qos feed (topic ∷ topics) next =
    let rest = subscribe_all qos feed topics next in
    elim (feed.subscribe topic qos) [
      | none ↦ running
      | some (inl e) ↦ returns_after feed.disconnect
      | some (inr _) ↦ rest
    ]

unfoldable pub run_sub_session :
    MqttSubListenerConfig → BrokerEndpoint → QoS → Start → Session UpstreamRequest
run_sub_session config endpoint qos start =
    let (client_id, _) = client_id_or (text "iron-babel-sub") config.client_id start.counter in
    let feed = start.connect (set_keep_alive 5 (mqtt_options endpoint client_id)) in
    subscribe_all qos feed config.topics (receive config.forward_to feed.polls)

unfoldable pub run_sub_listener :
    MqttSubListenerConfig → List (Round Start) → Session UpstreamRequest
run_sub_listener config rounds = elim (parse_broker_url config.broker_url) [
  | err e ↦ over
  | ok endpoint ↦ elim (qos_from_u8 config.qos) [
    | err e ↦ over
    | ok qos ↦ listen (run_sub_session config endpoint qos) rounds
  ]
]
