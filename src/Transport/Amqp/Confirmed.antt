-- ===== src/Transport/Amqp/Confirmed.antt =====
-- When the AMQP transport reports that a message is published.
use iron_babel.Base.{◌≡◌, refl, true, false, ◌↔◌, none, some, inr, arith}
use iron_babel.Text.{Str, text}
use iron_babel.Error.{ok}
use iron_babel.Config.Types.{AmqpTransportConfig}
use iron_babel.Transport.{awaited}
use iron_babel.Transport.Awaiting.{>>=-finished, awaited-finished, timeout_iff}
use iron_babel.Transport.Amqp.{
  Lapin, LapinLaws, properties_of, check_confirmation, publish_future, publish,
}

module _ (L : Lapin) (cfg : AmqpTransportConfig) (body : Str) where
  check_confirmation_iff :
      (answer : L.Confirmation)
      → (check_confirmation L cfg answer ≡ ok tt)
        ↔ ((L.is_nack answer ≡ false) × (L.take_message answer ≡ none))
  unfolding check_confirmation
  check_confirmation_iff answer = ground arith

  -- Each call succeeds in turn, and the confirmation is neither a nack nor a returned message.
  pub record IsConfirmed : Type 0 where
    pub connection : L.Connection
    pub channel : L.Channel
    pub confirming : L.Channel
    pub pending : L.Confirm
    pub answer : L.Confirmation
    pub connected : L.connect cfg.broker_url ≡ some (inr connection)
    pub created : L.create_channel connection ≡ some (inr channel)
    pub selected : L.confirm_select channel ≡ some (inr confirming)
    pub published :
        L.basic_publish confirming cfg.exchange cfg.routing_key cfg.mandatory body
          (properties_of cfg)
        ≡ some (inr pending)
    pub confirmed : L.confirm pending ≡ some (inr answer)
    pub not_nacked : L.is_nack answer ≡ false
    pub not_returned : L.take_message answer ≡ none
    pub closed : L.close connection 200 (text "publish complete") ≡ some (inr tt)

  publish_future-IsConfirmed : publish_future L cfg body ≡ some (ok tt) → IsConfirmed
  unfolding publish_future
  publish_future-IsConfirmed h =
      let (connection, h1, k1) = >>=-finished (awaited _ (L.connect cfg.broker_url)) _ h in
      let (channel, h2, k2) = >>=-finished (awaited _ (L.create_channel connection)) _ k1 in
      let (confirming, h3, k3) = >>=-finished (awaited _ (L.confirm_select channel)) _ k2 in
      let (pending, h4, k4) =
        >>=-finished (awaited _ (L.basic_publish confirming _ _ _ _ _)) _ k3 in
      let (answer, h5, k5) = >>=-finished (awaited _ (L.confirm pending)) _ k4 in
      let (_, h6, k6) = >>=-finished (some (check_confirmation L cfg answer)) _ k5 in
      let tests = (check_confirmation_iff answer).0 (cc h6) in
      record {
        connection = connection;
        channel = channel;
        confirming = confirming;
        pending = pending;
        answer = answer;
        connected = awaited-finished _ _ h1;
        created = awaited-finished _ _ h2;
        selected = awaited-finished _ _ h3;
        published = awaited-finished _ _ h4;
        confirmed = awaited-finished _ _ h5;
        not_nacked = tests.0;
        not_returned = tests.1;
        closed = awaited-finished _ _ k6;
      }

  IsConfirmed-publish_future : IsConfirmed → publish_future L cfg body ≡ some (ok tt)
  unfolding publish_future
  IsConfirmed-publish_future c =
      rw
        (
          c.connected,
          c.created,
          c.selected,
          c.published,
          c.confirmed,
          (check_confirmation_iff c.answer).1 (c.not_nacked, c.not_returned),
          c.closed,
        )
        refl

  -- `publish` ends without an error exactly when every call of the client library succeeds within
  -- the time limit, the confirmation is not a nack and it carries no returned message.
  pub publish_iff : (publish L cfg body ≡ ok tt) ↔ IsConfirmed
  unfolding publish
  publish_iff =
      let limit =
        timeout_iff (text "AMQP publish timed out after ") cfg.timeout_secs
          (publish_future L cfg body) tt in
      (λ h. publish_future-IsConfirmed (limit.0 h), λ c. limit.1 (IsConfirmed-publish_future c))

  -- The broker's answer to the message, given on a channel in confirm mode, is an ack without a
  -- returned message.
  pub record IsAcked (laws : LapinLaws L) : Type 0 where
    pub channel : L.Channel
    pub pending : L.Confirm
    pub answer : L.Confirmation
    pub in_confirm_mode : laws.InConfirmMode channel
    pub published :
        L.basic_publish channel cfg.exchange cfg.routing_key cfg.mandatory body (properties_of cfg)
        ≡ some (inr pending)
    pub answered : L.confirm pending ≡ some (inr answer)
    pub acked : L.is_ack answer ≡ true
    pub not_returned : L.take_message answer ≡ none

  -- A message that `publish` reports as published has been acked by the broker on a channel in
  -- confirm mode, and has not been returned.
  pub publish-IsAcked : (laws : LapinLaws L) → publish L cfg body ≡ ok tt → IsAcked laws
  publish-IsAcked laws h =
      let c = publish_iff.0 h in
      let mode = laws.confirm_select-InConfirmMode c.channel c.confirming c.selected in
      record {
        channel = c.confirming;
        pending = c.pending;
        answer = c.answer;
        in_confirm_mode = mode;
        published = c.published;
        answered = c.confirmed;
        acked =
            laws.answered c.confirming cfg.exchange cfg.routing_key cfg.mandatory body
              (properties_of cfg) c.pending c.answer mode c.published c.confirmed c.not_nacked;
        not_returned = c.not_returned;
      }
