-- ===== src/Transport/Mqtt/Publishing.antt =====
-- src/gateway/mqtt.rs: the publication of a message.
use iron_babel.Base.{ℕ, Bool, true, false, none, some, List, [], ◌∷◌, ◌++◌, inl, inr, if◌then◌else◌}
use iron_babel.Text.{Str, text}
use iron_babel.Error.{Error, Checked, ok, err}
use iron_babel.Config.Types.{MqttTransportConfig}
use iron_babel.Transport.{Call, Await, ◌>>=◌, awaited, timeout}
use iron_babel.Transport.Mqtt.{
  QoS, qos_from_u8, parse_broker_url, client_id_or, MqttOptions, mqtt_options, set_keep_alive,
  Event, Poll, Link,
}

unfoldable pub settles : QoS → Event → Bool
settles QoS.at_most_once Event.outgoing_publish = true
settles QoS.at_least_once Event.incoming_pub_ack = true
settles QoS.exactly_once Event.incoming_pub_comp = true
settles _ _ = false

-- The first loop of `publish`; its value is what is left to poll.
unfoldable pub until_settled : QoS → List Poll → Await (List Poll)
until_settled qos [] = none
until_settled qos (inl e ∷ polls) =
    some (err (Error.protocol (text "MQTT event loop failed during publish: " ++ e)))
until_settled qos (inr event ∷ polls) =
    let rest = until_settled qos polls in if settles qos event then some (ok polls) else rest

unfoldable pub is_disconnect : Event → Bool
is_disconnect Event.outgoing_disconnect = true
is_disconnect _ = false

-- The second loop: an error ends it as a disconnection does.
unfoldable pub until_closed : List Poll → Await (Unit {0})
until_closed [] = none
until_closed (inl e ∷ polls) = some (ok tt)
until_closed (inr event ∷ polls) =
    let rest = until_closed polls in if is_disconnect event then some (ok tt) else rest

unfoldable pub close : Call (Unit {0}) → List Poll → Await (Unit {0})
close none polls = none
close (some (inl e)) polls = some (ok tt)
close (some (inr _)) polls = until_closed polls

-- The body of the `async move` block.
unfoldable pub publish_future : QoS → Link → Await (Unit {0})
publish_future qos link = do
  _ ← awaited (text "MQTT publish failed: ") link.queued
  polls ← until_settled qos link.polls
  close link.disconnect polls

-- What rumqttc does with the options, the topic, the QoS, the retain flag and the body.
abbrev pub Connect : Type 0
Connect = MqttOptions → Str → QoS → Bool → Str → Link

-- `publish`, with the id counter before and after it.
unfoldable pub publish : Connect → MqttTransportConfig → Str → ℕ → Checked × ℕ
publish connect cfg body counter = elim (parse_broker_url cfg.broker_url) [
  | err e ↦ (err e, counter)
  | ok endpoint ↦ elim (qos_from_u8 cfg.qos) [
    | err e ↦ (err e, counter)
    | ok qos ↦
        let (client_id, next) = client_id_or (text "iron-babel-pub") cfg.client_id counter in
        let options = set_keep_alive 5 (mqtt_options endpoint client_id) in
        (
          timeout (text "MQTT publish timed out after ") cfg.timeout_secs
              (publish_future qos (connect options cfg.topic qos cfg.retain body)),
          next,
        )
  ]
]
