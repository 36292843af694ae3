-- ===== src/Transport/Amqp/Poison.antt =====
-- How often a message that the target refuses comes back through the consumer of src/gateway/amqp.rs.
use iron_babel.Base.{◌≡◌, ◌≤◌, true, false, some, List, [], ◌∷◌, length, arith}
use iron_babel.Config.Types.{AmqpConsumeListenerConfig}
use iron_babel.Upstream.{Client}
use iron_babel.Transport.Amqp.{
  Delivery, Answer, answer_to, is_success, delivery_post, handle_delivery,
}

module _ (client : Client) (config : AmqpConsumeListenerConfig) where
  -- The deliveries of one message through one connection: the broker delivers it again only when the
  -- consumer asked for this, and marks it as redelivered.
  pub data Deliveries : List Delivery → Type 0 where
    last : (d : Delivery) → Deliveries (d ∷ [])
    again :
        {d d' : Delivery} {ds : List Delivery}
        → (handle_delivery client config d).1 ≡ some (Answer.nack true)
        → d'.redelivered ≡ true
        → Deliveries (d' ∷ ds)
        → Deliveries (d ∷ d' ∷ ds)

  -- A message is put back into the queue only when it is not yet marked, the target did not take it
  -- and the consumer answers the broker.
  pub handle_delivery-requeued :
      (d : Delivery)
      → (handle_delivery client config d).1 ≡ some (Answer.nack true)
      → (d.redelivered ≡ false)
        × (is_success (client (delivery_post config.forward_to d)) ≡ false)
        × (config.auto_ack ≡ false)
  unfolding handle_delivery answer_to
  handle_delivery-requeued d h = ground arith

  -- Through one connection a message is delivered at most twice.
  pub Deliveries-length : (ds : List Delivery) → Deliveries ds → length ds ≤ 2
  Deliveries-length _ (last d) = omega arith
  Deliveries-length _ (again asked marked (last d')) = omega arith
  Deliveries-length _ (again asked marked (again {d = d'} asked' marked' more)) =
      cc ((handle_delivery-requeued d' asked').0)
