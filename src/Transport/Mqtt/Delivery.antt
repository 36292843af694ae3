-- ===== src/Transport/Mqtt/Delivery.antt =====
-- When the MQTT transport reports that a message is published.
use iron_babel.Base.{
  ℕ, Bool, true, false, ◌≡◌, refl, ◌↔◌, ◌⊎◌, inl, inr, none, some, List, [], ◌∷◌, ◌++◌, arith, All,
  Bool-cases, ap,
}
use iron_babel.Text.{Str, text}
use iron_babel.Error.{ok, Result-cases}
use iron_babel.Config.Types.{MqttTransportConfig}
use iron_babel.Transport.{Call, awaited}
use iron_babel.Transport.Awaiting.{>>=-finished, awaited-finished, timeout_iff}
use iron_babel.Transport.Mqtt.{
  BrokerEndpoint, QoS, qos_from_u8, parse_broker_url, client_id_or, mqtt_options, set_keep_alive,
  Event, Poll, Link,
}
use iron_babel.Transport.Mqtt.Publishing.{
  settles, until_settled, is_disconnect, until_closed, close, publish_future, Connect, publish,
}

-- An event that does not end the loop which waits for `test`.
abbrev pub Passes : (Event → Bool) → Poll → Type 0
Passes test (inl e) = ⊥
Passes test (inr event) = test event ≡ false

-- The polls up to one that ends a loop, without an error before it.
pub record Reaches (test : Event → Bool) (polls rest : List Poll) : Type 0 where
  pub before : List Poll
  pub event : Event
  pub splits : polls ≡ before ++ inr event ∷ rest
  pub passed : All (Passes test) before
  pub ends : test event ≡ true

later :
    {test : Event → Bool} {polls rest : List Poll} (event : Event)
    → test event ≡ false
    → Reaches test polls rest
    → Reaches test (inr event ∷ polls) rest
later event miss r = record {
  before = inr event ∷ r.before;
  event = r.event;
  splits = ap (λ t. inr event ∷ t) r.splits;
  passed = (miss, r.passed);
  ends = r.ends;
}

until_settled-Reaches :
    (qos : QoS) (polls rest : List Poll)
    → until_settled qos polls ≡ some (ok rest)
    → Reaches (settles qos) polls rest
unfolding until_settled
until_settled-Reaches qos [] rest h = cc
until_settled-Reaches qos (inl e ∷ polls) rest h = cc
until_settled-Reaches qos (inr event ∷ polls) rest h = elim (Bool-cases (settles qos event)) [
  | inl hit ↦ record { before = []; event = event; splits = ground arith; passed = tt; ends = hit }
  | inr miss ↦ later event miss (until_settled-Reaches qos polls rest (rw miss at h))
]

Reaches-until_settled :
    (qos : QoS) (before rest : List Poll) (event : Event)
    → All (Passes (settles qos)) before
    → settles qos event ≡ true
    → until_settled qos (before ++ inr event ∷ rest) ≡ some (ok rest)
unfolding until_settled
Reaches-until_settled qos [] rest event passed ends = rw ends refl
Reaches-until_settled qos (inl e ∷ before) rest event passed ends = absurd passed.0
Reaches-until_settled qos (inr first ∷ before) rest event passed ends =
    rw (passed.0) (Reaches-until_settled qos before rest event passed.1 ends)

-- A poll after which the connection is given up as closed: its disconnection or an error.
abbrev pub IsEnd : Poll → Type 0
IsEnd (inl e) = Unit
IsEnd (inr event) = is_disconnect event ≡ true

abbrev pub HasEnd : List Poll → Type 0
HasEnd [] = ⊥
HasEnd (p ∷ polls) = IsEnd p ⊎ HasEnd polls

until_closed_iff : (polls : List Poll) → (until_closed polls ≡ some (ok tt)) ↔ HasEnd polls
unfolding until_closed
until_closed_iff [] = ground arith
until_closed_iff (inl e ∷ polls) = (λ _. inl tt, λ _. refl)
until_closed_iff (inr event ∷ polls) = ground (arith, until_closed_iff polls)

-- The connection is closed, or a failure to close it is put up with.
abbrev pub IsClosed : Call (Unit {0}) → List Poll → Type 0
IsClosed none rest = ⊥
IsClosed (some (inl e)) rest = Unit
IsClosed (some (inr _)) rest = HasEnd rest

close_iff :
    (call : Call (Unit {0})) (rest : List Poll)
    → (close call rest ≡ some (ok tt)) ↔ IsClosed call rest
unfolding close
close_iff none rest = ground arith
close_iff (some (inl e)) rest = (λ _. tt, λ _. refl)
close_iff (some (inr _)) rest = until_closed_iff rest

-- What the client library does for the message: it takes it, the event that acknowledges it at its
-- QoS comes before any error, and the connection is closed.
pub record IsSettled (qos : QoS) (link : Link) : Type 0 where
  pub queued : link.queued ≡ some (inr tt)
  pub rest : List Poll
  pub acknowledged : Reaches (settles qos) link.polls rest
  pub closed : IsClosed link.disconnect rest

publish_future_iff :
    (qos : QoS) (link : Link) → (publish_future qos link ≡ some (ok tt)) ↔ IsSettled qos link
unfolding publish_future
publish_future_iff qos link = (
  λ h.
      let (_, taken, h1) = >>=-finished (awaited _ link.queued) _ h in
      let (rest, settled, h2) = >>=-finished (until_settled qos link.polls) _ h1 in
      record {
        queued = awaited-finished _ link.queued taken;
        rest = rest;
        acknowledged = until_settled-Reaches qos link.polls rest settled;
        closed = (close_iff link.disconnect rest).0 h2;
      },
  λ s.
      let r = s.acknowledged in
      rw
        (
          s.queued,
          r.splits,
          Reaches-until_settled qos r.before s.rest r.event r.passed r.ends,
          (close_iff link.disconnect s.rest).1 s.closed,
        )
        refl,
)

-- The connection that `publish` opens.
abbrev pub opened : Connect → MqttTransportConfig → Str → ℕ → BrokerEndpoint → QoS → Link
opened connect cfg body counter endpoint qos =
    connect
      (set_keep_alive 5
        (mqtt_options endpoint (client_id_or (text "iron-babel-pub") cfg.client_id counter).0))
      cfg.topic qos cfg.retain body

-- The broker has taken the message over at the configured QoS.
pub record IsDelivered (connect : Connect) (cfg : MqttTransportConfig) (body : Str) (counter : ℕ)
    : Type 0 where
  pub endpoint : BrokerEndpoint
  pub qos : QoS
  pub parsed : parse_broker_url cfg.broker_url ≡ ok endpoint
  pub valid : qos_from_u8 cfg.qos ≡ ok qos
  pub settled : IsSettled qos (opened connect cfg body counter endpoint qos)

-- `publish` ends without an error exactly when the broker's URL and the QoS are valid, the client
-- library takes the message, the event that acknowledges it at this QoS comes before any error, and
-- the connection is then closed or fails to close, all within the time limit.
pub publish_iff :
    (connect : Connect) (cfg : MqttTransportConfig) (body : Str) (counter : ℕ)
    → ((publish connect cfg body counter).0 ≡ ok tt) ↔ IsDelivered connect cfg body counter
unfolding publish
publish_iff connect cfg body counter = (
  λ h. elim (Result-cases (parse_broker_url cfg.broker_url)) [
    | inr bad ↦ cc (rw (bad.1, publish) at h)
    | inl parsed ↦ elim (Result-cases (qos_from_u8 cfg.qos)) [
      | inr bad ↦ cc (rw (parsed.1, bad.1, publish) at h)
      | inl valid ↦ record {
        endpoint = parsed.0;
        qos = valid.0;
        parsed = parsed.1;
        valid = valid.1;
        settled =
            (publish_future_iff valid.0 _).0
              ((timeout_iff _ cfg.timeout_secs _ tt).0 (rw (parsed.1, valid.1, publish) at h));
      }
    ]
  ],
  λ d.
      rw (d.parsed, d.valid, publish)
        ((timeout_iff _ cfg.timeout_secs _ tt).1 ((publish_future_iff d.qos _).1 d.settled)),
)
