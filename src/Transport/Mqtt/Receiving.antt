-- ===== src/Transport/Mqtt/Receiving.antt =====
-- What an MQTT subscriber's session posts.
use iron_babel.Base.{
  ◌&&◌, if◌then◌else◌, sym, ◌⊎◌, ◌≡◌, refl, ap, true, false, Bool, none, some, List, [], ◌∷◌, inl,
  inr, map,
}
use iron_babel.Text.{Str, text}
use iron_babel.Config.Types.{MqttSubListenerConfig}
use iron_babel.Transport.{Call, Session, before, returns_after}
use iron_babel.Upstream.{UpstreamRequest}
use iron_babel.Transport.Mqtt.{
  BrokerEndpoint, QoS, client_id_or, mqtt_options, set_keep_alive, Publish, Event, Poll,
}
use iron_babel.Transport.Mqtt.Subscriber.{
  Feed, Start, publish_post, receive, subscribe_all, run_sub_session,
}

-- The messages before the first error.
abbrev pub messages : List Poll → List Publish
messages [] = []
messages (inl e ∷ polls) = []
messages (inr (Event.incoming_publish p) ∷ polls) = p ∷ messages polls
messages (inr _ ∷ polls) = messages polls

abbrev pub has_error : List Poll → Bool
has_error [] = false
has_error (inl e ∷ polls) = true
has_error (inr _ ∷ polls) = has_error polls

receive_lem :
    (forward_to : Str) (polls : List Poll)
    → receive forward_to polls ≡ record {
      effects = map (publish_post forward_to) (messages polls);
      returned = has_error polls;
    }
unfolding receive before
receive_lem forward_to [] = refl
receive_lem forward_to (inl e ∷ polls) = refl
receive_lem forward_to (inr (Event.incoming_publish p) ∷ polls) =
    ap (before (publish_post forward_to p)) (receive_lem forward_to polls)
receive_lem forward_to (inr Event.outgoing_publish ∷ polls) = receive_lem forward_to polls
receive_lem forward_to (inr Event.outgoing_disconnect ∷ polls) = receive_lem forward_to polls
receive_lem forward_to (inr Event.incoming_pub_ack ∷ polls) = receive_lem forward_to polls
receive_lem forward_to (inr Event.incoming_pub_comp ∷ polls) = receive_lem forward_to polls
receive_lem forward_to (inr Event.other ∷ polls) = receive_lem forward_to polls

-- The connection of a session.
abbrev pub feed_of : MqttSubListenerConfig → BrokerEndpoint → Start → Feed
feed_of config endpoint start = start.connect (
    set_keep_alive 5 (
      mqtt_options endpoint
        (client_id_or (text "iron-babel-sub") config.client_id start.counter).0))

abbrev accepted : Call (Unit {0}) → Bool
accepted none = false
accepted (some (inl e)) = false
accepted (some (inr u)) = true

-- Whether each of the subscriptions is made.
abbrev pub is_subscribed : QoS → Feed → List Str → Bool
is_subscribed qos feed [] = true
is_subscribed qos feed (topic ∷ topics) =
    accepted (feed.subscribe topic qos) && is_subscribed qos feed topics

ended :
    (c : Call (Unit {0})) → (c ≡ none) ⊎ (((e : Str) × (c ≡ some (inl e))) ⊎ (c ≡ some (inr tt)))
ended none = inl refl
ended (some (inl e)) = inr (inl (e, refl))
ended (some (inr u)) = inr (inr refl)

returns_after-silent : (c : Call (Unit {0})) → (returns_after {E = UpstreamRequest} c).effects ≡ []
returns_after-silent none = refl
returns_after-silent (some c) = refl

subscribe_all-effects :
    (qos : QoS) (feed : Feed) (topics : List Str) (next : Session UpstreamRequest)
    → (subscribe_all qos feed topics next).effects
      ≡ (if is_subscribed qos feed topics then next.effects else [])
unfolding subscribe_all
subscribe_all-effects qos feed [] next = refl
subscribe_all-effects qos feed (topic ∷ topics) next = elim (ended (feed.subscribe topic qos)) [
  | inl none_yet ↦ rw (none_yet, subscribe_all, is_subscribed) refl
  | inr (inl (e, failed)) ↦
      rw (failed, subscribe_all, is_subscribed) (returns_after-silent feed.disconnect)
  | inr (inr done) ↦
      rw (done, subscribe_all, is_subscribed) (subscribe_all-effects qos feed topics next)
]

-- If each topic is subscribed to, a session posts each message that it receives before an error,
-- once and in order; any other session posts nothing.
pub run_sub_session-effects :
    (config : MqttSubListenerConfig) (endpoint : BrokerEndpoint) (qos : QoS) (start : Start)
    → (run_sub_session config endpoint qos start).effects ≡ (
        if is_subscribed qos (feed_of config endpoint start) config.topics
        then map (publish_post config.forward_to) (messages (feed_of config endpoint start).polls)
        else [])
unfolding run_sub_session
run_sub_session-effects config endpoint qos start =
    let feed = feed_of config endpoint start in
    rw (sym (ap (λ s. s.effects) (receive_lem config.forward_to feed.polls)))
      (subscribe_all-effects qos feed config.topics (receive config.forward_to feed.polls))
