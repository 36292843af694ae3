-- ===== src/Transport/WebSocket.antt =====
-- src/gateway/ws.rs: the proxy between a client's WebSocket and the backend's.
pub mod Messages
pub mod Relay
use iron_babel.Base.{
  ℕ, ◌*◌, Bool, true, false, ◌||◌, Option, none, some, List, [], ◌∷◌, ◌++◌, ◌⊎◌, inl, inr,
  if◌then◌else◌, ◌≤◌, ◌≡◌,
}
use iron_babel.Text.{Str, text, starts_with}
use iron_babel.Transport.{Call}
use iron_babel.Transport.Zmq.{replace_prefix}

abbrev pub max_ws_message_size : ℕ
max_ws_message_size = 10 * 1024 * 1024

abbrev pub max_ws_frame_size : ℕ
max_ws_frame_size = 10 * 1024 * 1024

-- `s.contains(part)`
unfoldable pub contains : Str → Str → Bool
contains part [] = starts_with part []
contains part (c ∷ s) = starts_with part (c ∷ s) || contains part s

unfoldable pub normalize_ws_url : Str → Str ⊎ Str
normalize_ws_url url =
    if starts_with (text "ws://") url || starts_with (text "wss://") url
    then inr url
    else if starts_with (text "http://") url
    then inr (replace_prefix (text "http://") (text "ws://") url)
    else if starts_with (text "https://") url
    then inr (replace_prefix (text "https://") (text "wss://") url)
    else if contains (text "://") url
    then inl (text "WebSocket backend URL must use ws://, wss://, http://, or https:// scheme")
    else inr (text "ws://" ++ url)

-- axum's messages; a close frame has a code and a reason.
pub data AxumMessage : Type 0 where
  text_message binary ping pong : Str → AxumMessage
  close : Option (ℕ × Str) → AxumMessage

-- tungstenite's close codes, with the two conversions.
pub record CloseCodes : Type 1 where
  pub CloseCode : Type 0
  pub from_u16 : ℕ → CloseCode
  pub to_u16 : CloseCode → ℕ

-- A code of 16 bits survives the conversion.
pub record CloseCodesLaws (C : CloseCodes) : Type 0 where
  pub to_u16-from_u16 : (n : ℕ) → n ≤ 65535 → C.to_u16 (C.from_u16 n) ≡ n

-- tungstenite's messages; `frame` is a raw frame.
pub data TungsteniteMessage (C : CloseCodes) : Type 0 where
  text_message binary ping pong : Str → TungsteniteMessage C
  close : Option (C.CloseCode × Str) → TungsteniteMessage C
  frame : Str → TungsteniteMessage C

-- One direction of the proxy: what it has sent, and whether its loop has ended.
pub record Direction (B : Type 0) : Type 0 where
  pub sent : List B
  pub finished : Bool

abbrev pub idle : {B : Type 0} → Direction B
idle = record { sent = []; finished = false }

-- What `next()` gives: none at the end of the stream, else a message or an error.
abbrev pub Next : Type 0 → Type 0
Next A = Option (Str ⊎ A)

module _ {A B : Type 0} (is_close : A → Bool) (convert : A → Option B)
    (sends : List B → B → Bool) where
  converted : List B → Bool → Option B → Direction B
  converted sent closing none = record { sent = sent; finished = closing }
  converted sent closing (some b) =
      if sends sent b
      then record { sent = sent ++ b ∷ []; finished = closing }
      else record { sent = sent; finished = true }

  -- The body of a direction's loop; `sends` tells whether the sink takes the message.
  unfoldable pub relay : Direction B → Next A → Direction B
  unfolding converted
  relay d none = record { sent = d.sent; finished = true }
  relay d (some (inl e)) = record { sent = d.sent; finished = true }
  relay d (some (inr msg)) = converted d.sent (is_close msg) (convert msg)

unfoldable pub is_axum_close : AxumMessage → Bool
is_axum_close (AxumMessage.close _) = true
is_axum_close _ = false

module _ (C : CloseCodes) where
  unfoldable pub axum_to_tungstenite : AxumMessage → Option (TungsteniteMessage C)
  axum_to_tungstenite (AxumMessage.text_message s) = some (TungsteniteMessage.text_message s)
  axum_to_tungstenite (AxumMessage.binary b) = some (TungsteniteMessage.binary b)
  axum_to_tungstenite (AxumMessage.ping b) = some (TungsteniteMessage.ping b)
  axum_to_tungstenite (AxumMessage.pong b) = some (TungsteniteMessage.pong b)
  axum_to_tungstenite (AxumMessage.close none) = some (TungsteniteMessage.close none)
  axum_to_tungstenite (AxumMessage.close (some f)) =
      some (TungsteniteMessage.close (some (C.from_u16 f.0, f.1)))

  unfoldable pub tungstenite_to_axum : TungsteniteMessage C → Option AxumMessage
  tungstenite_to_axum (TungsteniteMessage.text_message s) = some (AxumMessage.text_message s)
  tungstenite_to_axum (TungsteniteMessage.binary b) = some (AxumMessage.binary b)
  tungstenite_to_axum (TungsteniteMessage.ping b) = some (AxumMessage.ping b)
  tungstenite_to_axum (TungsteniteMessage.pong b) = some (AxumMessage.pong b)
  tungstenite_to_axum (TungsteniteMessage.close none) = some (AxumMessage.close none)
  tungstenite_to_axum (TungsteniteMessage.close (some f)) =
      some (AxumMessage.close (some (C.to_u16 f.0, f.1)))
  tungstenite_to_axum (TungsteniteMessage.frame b) = none

  unfoldable pub is_tungstenite_close : TungsteniteMessage C → Bool
  is_tungstenite_close (TungsteniteMessage.close _) = true
  is_tungstenite_close _ = false

  -- What the two streams give, in the order in which the loops see it.
  pub data Arrival : Type 0 where
    from_client : Next AxumMessage → Arrival
    from_backend : Next (TungsteniteMessage C) → Arrival

  -- The sinks of the two connections.
  pub record Sinks : Type 0 where
    pub to_backend : List (TungsteniteMessage C) → TungsteniteMessage C → Bool
    pub to_client : List AxumMessage → AxumMessage → Bool

  -- Both directions.
  pub record Proxy : Type 0 where
    pub c2b : Direction (TungsteniteMessage C)
    pub b2c : Direction AxumMessage

  module _ (sinks : Sinks) where
    unfoldable pub arrive : Proxy → Arrival → Proxy
    arrive p (from_client next) = record {
      c2b = relay is_axum_close axum_to_tungstenite sinks.to_backend p.c2b next;
      b2c = p.b2c;
    }
    arrive p (from_backend next) = record {
      c2b = p.c2b;
      b2c = relay is_tungstenite_close tungstenite_to_axum sinks.to_client p.b2c next;
    }

    -- The `select!` ends when one direction does.
    unfoldable pub run_both : Proxy → List Arrival → Proxy
    run_both p [] = p
    run_both p (a ∷ arrivals) =
        let q = arrive p a in
        let rest = run_both q arrivals in if q.c2b.finished || q.b2c.finished then q else rest

  -- The URL and the size limits that the connection to the backend is opened with, within the time
  -- limit.
  abbrev pub ConnectAsync : Type 0
  ConnectAsync = Str → ℕ → ℕ → ℕ → Call Sinks

  -- `proxy_websocket`; none when no connection comes about.
  unfoldable pub proxy_websocket : ConnectAsync → Str → ℕ → List Arrival → Option Proxy
  proxy_websocket connect backend_url connect_timeout_secs arrivals =
      elim (normalize_ws_url backend_url) [
        | inl e ↦ none
        | inr url ↦ elim (connect url max_ws_message_size max_ws_frame_size connect_timeout_secs) [
          | none ↦ none
          | some (inl e) ↦ none
          | some (inr sinks) ↦ some (run_both sinks (record { c2b = idle; b2c = idle }) arrivals)
        ]
      ]
