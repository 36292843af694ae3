-- ===== src/Transport/Amqp.antt =====
-- src/gateway/amqp.rs: the publication of a message with the broker's confirmation, and the
-- consumer. lapin is an interface: a channel's operations give the channel in its new state.
pub mod Confirmed
pub mod Poison
use iron_babel.Base.{
  ℕ, Bool, true, false, not, ◌&&◌, ◌+◌, ◌%◌, ◌^◌, leb, ltb, Option, none, some, List, [], ◌∷◌, ◌++◌,
  ◌⊎◌, inl, inr, ◌≡◌,
}
use iron_babel.Text.{Str, text, decimal}
use iron_babel.Error.{Error, Result, Checked, ok, err}
use iron_babel.HttpGuard.{Header}
use iron_babel.Config.Types.{AmqpTransportConfig, AmqpConsumeListenerConfig}
use iron_babel.Upstream.{UpstreamRequest, UpstreamResponse, Client}
use iron_babel.Transport.{
  Call, Await, ◌>>=◌, awaited, timeout, post, Session, running, over, before, returns_after, Round,
  listen,
}

-- What the code sets of `BasicProperties`.
pub record BasicProperties : Type 0 where
  pub delivery_mode : Option ℕ
  pub content_type : Option Str

pub record Returned : Type 0 where
  pub reply_code : ℕ
  pub reply_text : Str

pub record Delivery : Type 0 where
  pub exchange : Str
  pub routing_key : Str
  pub delivery_tag : ℕ
  pub redelivered : Bool
  pub payload : Str

pub record Lapin : Type 1 where
  pub Connection : Type 0
  pub Channel : Type 0
  pub Confirm : Type 0
  pub Confirmation : Type 0
  pub connect : Str → Call Connection
  pub create_channel : Connection → Call Channel
  pub confirm_select : Channel → Call Channel
  -- The exchange, the routing key, `mandatory`, the body and the properties.
  pub basic_publish : Channel → Str → Str → Bool → Str → BasicProperties → Call Confirm
  pub confirm : Confirm → Call Confirmation
  pub is_ack : Confirmation → Bool
  pub is_nack : Confirmation → Bool
  pub take_message : Confirmation → Option Returned
  pub close : Connection → ℕ → Str → Call (Unit {0})
  -- The queue, the consumer tag and `no_ack`; then what the consumer yields, where none is its end.
  pub basic_consume : Channel → Str → Str → Bool → Call (List (Option (Str ⊎ Delivery)))

-- In confirm mode a broker answers a message with an ack or a nack.
pub record LapinLaws (L : Lapin) : Type 1 where
  pub InConfirmMode : L.Channel → Type 0
  pub confirm_select-InConfirmMode :
      (c c' : L.Channel) → L.confirm_select c ≡ some (inr c') → InConfirmMode c'
  pub answered :
      (c : L.Channel) (exchange key : Str) (mandatory : Bool) (body : Str)
      (properties : BasicProperties) (pending : L.Confirm) (answer : L.Confirmation)
      → InConfirmMode c
      → L.basic_publish c exchange key mandatory body properties ≡ some (inr pending)
      → L.confirm pending ≡ some (inr answer)
      → L.is_nack answer ≡ false
      → L.is_ack answer ≡ true

unfoldable pub properties_of : AmqpTransportConfig → BasicProperties
properties_of cfg = record {
  delivery_mode = elim (cfg.persistent) [ true ↦ some 2 | false ↦ none ];
  content_type = cfg.content_type;
}

unfoldable pub publish_to : AmqpTransportConfig → Str
publish_to cfg =
    text "AMQP publish to exchange '"
    ++ (cfg.exchange ++ (text "' with routing key '" ++ cfg.routing_key))

module _ (L : Lapin) where
  -- The two tests of the confirmation.
  unfoldable pub check_confirmation : AmqpTransportConfig → L.Confirmation → Checked
  check_confirmation cfg answer = elim (L.is_nack answer) [
    | true ↦ err (Error.protocol (publish_to cfg ++ text "' was nacked by the broker"))
    | false ↦ elim (L.take_message answer) [
      | none ↦ ok tt
      | some returned ↦ err (
          Error.protocol (
            publish_to cfg
            ++ (text "' was returned undelivered: "
                ++ (decimal returned.reply_code ++ (text " " ++ returned.reply_text)))))
    ]
  ]

  -- The body of the `async` block.
  unfoldable pub publish_future : AmqpTransportConfig → Str → Await (Unit {0})
  publish_future cfg body = do
    connection ← awaited (text "AMQP connect failed: ") (L.connect cfg.broker_url)
    channel ← awaited (text "AMQP create channel failed: ") (L.create_channel connection)
    confirming ← awaited (text "AMQP enable publisher confirms failed: ") (L.confirm_select channel)
    pending ← awaited (text "AMQP publish failed: ") (
        L.basic_publish confirming cfg.exchange cfg.routing_key cfg.mandatory body
          (properties_of cfg))
    answer ← awaited (text "AMQP publish confirm failed: ") (L.confirm pending)
    _ ← some (check_confirmation cfg answer)
    awaited (text "AMQP close failed: ") (L.close connection 200 (text "publish complete"))

  unfoldable pub publish : AmqpTransportConfig → Str → Checked
  publish cfg body =
      timeout (text "AMQP publish timed out after ") cfg.timeout_secs (publish_future cfg body)

-- The tag made of the counter's value, and the counter after `fetch_add`, which wraps.
unfoldable pub next_consumer_tag : ℕ → Str × ℕ
next_consumer_tag counter =
    (text "iron-babel-amqp-consumer-" ++ decimal counter, (counter + 1) % 2 ^ 64)

unfoldable pub consumer_tag_or : Option Str → ℕ → Str × ℕ
consumer_tag_or (some tag) counter = (tag, counter)
consumer_tag_or none counter = next_consumer_tag counter

unfoldable pub delivery_post : Str → Delivery → UpstreamRequest
delivery_post forward_to d =
    post forward_to
      ((text "x-amqp-source", text "iron-babel-amqp-listener")
        ∷ (text "x-amqp-exchange", d.exchange)
        ∷ (text "x-amqp-routing-key", d.routing_key)
        ∷ (text "x-amqp-delivery-tag", decimal d.delivery_tag)
        ∷ [])
      d.payload

-- `matches!(response, Ok(ref resp) if resp.status().is_success())`
unfoldable pub is_success : Str ⊎ UpstreamResponse → Bool
is_success (inl e) = false
is_success (inr response) = leb 200 response.status && ltb response.status 300

-- What the consumer tells the broker about a delivery.
pub data Answer : Type 0 where
  ack : Answer
  nack : Bool → Answer

unfoldable pub answer_to : Bool → Bool → Bool → Option Answer
answer_to auto_ack success redelivered = elim auto_ack [
  | true ↦ none
  | false ↦ some (elim success [ true ↦ Answer.ack | false ↦ Answer.nack (not redelivered) ])
]

-- The body of the loop over the deliveries.
unfoldable pub handle_delivery :
    Client → AmqpConsumeListenerConfig → Delivery → UpstreamRequest × Option Answer
handle_delivery client config d =
    let request = delivery_post config.forward_to d in
    (request, answer_to config.auto_ack (is_success (client request)) d.redelivered)

-- What was posted for a delivery, and what the broker was told.
abbrev pub Handled : Type 0
Handled = UpstreamRequest × Option Answer

-- The loop over what the consumer yields.
unfoldable pub consume :
    Client → AmqpConsumeListenerConfig → List (Option (Str ⊎ Delivery)) → Session Handled
consume client config [] = running
consume client config (none ∷ items) = over
consume client config (some (inl e) ∷ items) = over
consume client config (some (inr d) ∷ items) =
    before (handle_delivery client config d) (consume client config items)

module _ (L : Lapin) (client : Client) (config : AmqpConsumeListenerConfig) where
  subscribed : ℕ → L.Connection → L.Channel → Session Handled
  subscribed counter connection channel =
      let (consumer_tag, _) = consumer_tag_or config.consumer_tag counter in
      elim (L.basic_consume channel config.queue consumer_tag config.auto_ack) [
        | none ↦ running
        | some (inl e) ↦ returns_after (L.close connection 500 (text "subscribe failure"))
        | some (inr items) ↦ consume client config items
      ]

  connected : ℕ → L.Connection → Session Handled
  connected counter connection = elim (L.create_channel connection) [
    | none ↦ running
    | some (inl e) ↦ returns_after (L.close connection 500 (text "channel failure"))
    | some (inr channel) ↦ subscribed counter connection channel
  ]

  unfoldable pub run_consumer_session : ℕ → Session Handled
  unfolding subscribed connected
  run_consumer_session counter = elim (L.connect config.broker_url) [
    | none ↦ running
    | some (inl e) ↦ over
    | some (inr connection) ↦ connected counter connection
  ]

-- Each session meets the client library, the HTTP client and the tag counter as they then are.
pub record Start : Type 1 where
  pub lapin : Lapin
  pub client : Client
  pub counter : ℕ

unfoldable pub run_consumer_listener :
    AmqpConsumeListenerConfig → List (Round Start) → Session Handled
run_consumer_listener config rounds =
    listen (λ s. run_consumer_session s.lapin s.client config s.counter) rounds
