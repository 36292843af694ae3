-- ===== src/Examples/Sockets.antt =====
-- The ZMQ and WebSocket transports and the codecs at concrete inputs.
use iron_babel.Base.{ℕ, ◌≡◌, refl, ◌⊎◌, true, none, some, List, [], ◌∷◌, inr}
use iron_babel.Text.{Str, text}
use iron_babel.Config.Urls.{IsWsUrl}
use iron_babel.Transport.Zmq.{Socket}
use iron_babel.Transport.WebSocket.{
  AxumMessage, CloseCodes, TungsteniteMessage, Arrival, from_client, from_backend, Sinks,
  ConnectAsync, is_axum_close, is_tungstenite_close, axum_to_tungstenite, tungstenite_to_axum,
  normalize_ws_url,
}
use iron_babel.Transport.WebSocket.Messages.{Speaks, normalize_ws_url-valid}
use iron_babel.Transport.WebSocket.Relay.{session, all_for_backend, all_for_client}

abbrev echo : Socket
echo = record {
  connect = λ addr. inr tt;
  send = λ message. inr tt;
  recv = λ secs. some (inr (text "a" ∷ text "b" ∷ []));
}

https_url : IsWsUrl (text "https://host/ws")
unfolding text
https_url = inr (inr (text "host/ws", refl))

normalize_ws_url-valid_example :
    (u : Str) × (normalize_ws_url (text "https://host/ws") ≡ inr u)
    × (Speaks "ws://" "http://" (text "https://host/ws") u
        ⊎ Speaks "wss://" "https://" (text "https://host/ws") u)
normalize_ws_url-valid_example = normalize_ws_url-valid (text "https://host/ws") https_url

abbrev codes : CloseCodes
codes = record { CloseCode = ℕ; from_u16 = λ n. n; to_u16 = λ n. n }

abbrev sinks : Sinks codes
sinks = record { to_backend = λ sent m. true; to_client = λ sent m. true }

abbrev connect : ConnectAsync codes
connect = λ url message_size frame_size timeout. some (inr sinks)

-- The client closes the session; what it says after that is not forwarded.
abbrev arrivals : List (Arrival codes)
arrivals =
    from_client (some (inr (AxumMessage.text_message (text "hi"))))
    ∷ from_backend (some (inr (TungsteniteMessage.frame [])))
    ∷ from_backend (some (inr (TungsteniteMessage.text_message (text "ho"))))
    ∷ from_client (some (inr (AxumMessage.close none)))
    ∷ from_client (some (inr (AxumMessage.text_message (text "late"))))
    ∷ []

-- What the two sides get.
forwarded :
    (all_for_backend codes (session codes arrivals)
      ≡ TungsteniteMessage.text_message (text "hi") ∷ TungsteniteMessage.close none ∷ [])
    × (all_for_client codes (session codes arrivals) ≡ AxumMessage.text_message (text "ho") ∷ [])
unfolding is_axum_close is_tungstenite_close axum_to_tungstenite tungstenite_to_axum
forwarded = (refl, refl)
