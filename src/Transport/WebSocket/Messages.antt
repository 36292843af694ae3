-- ===== src/Transport/WebSocket/Messages.antt =====
-- The two message conversions of the WebSocket proxy, and its URLs.
use iron_babel.Base.{◌≡◌, refl, ap, String, ◌≤◌, none, some, ◌⊎◌, inl, inr, ◌++◌}
use iron_babel.Text.{Str, text, starts_with, strip_prefix}
use iron_babel.Config.Urls.{IsWsUrl}
use iron_babel.Transport.Zmq.{replace_prefix}
use iron_babel.Transport.WebSocket.{
  AxumMessage, CloseCodes, CloseCodesLaws, TungsteniteMessage, axum_to_tungstenite,
  tungstenite_to_axum, normalize_ws_url,
}

-- A close frame's code fits into 16 bits.
abbrev pub HasCode16 : AxumMessage → Type 0
HasCode16 (AxumMessage.close (some f)) = f.0 ≤ 65535
HasCode16 _ = Unit

-- A message of the client is converted, and converting it back gives it again, the code and the
-- reason of a close frame included.
pub tungstenite_to_axum-axum_to_tungstenite :
    (C : CloseCodes) (laws : CloseCodesLaws C) (m : AxumMessage)
    → HasCode16 m
    → (t : TungsteniteMessage C) × (axum_to_tungstenite C m ≡ some t)
      × (tungstenite_to_axum C t ≡ some m)
unfolding axum_to_tungstenite tungstenite_to_axum
tungstenite_to_axum-axum_to_tungstenite C laws (AxumMessage.text_message s) h = (_, refl, refl)
tungstenite_to_axum-axum_to_tungstenite C laws (AxumMessage.binary b) h = (_, refl, refl)
tungstenite_to_axum-axum_to_tungstenite C laws (AxumMessage.ping b) h = (_, refl, refl)
tungstenite_to_axum-axum_to_tungstenite C laws (AxumMessage.pong b) h = (_, refl, refl)
tungstenite_to_axum-axum_to_tungstenite C laws (AxumMessage.close none) h = (_, refl, refl)
tungstenite_to_axum-axum_to_tungstenite C laws (AxumMessage.close (some f)) h =
    (_, refl, ap (λ n. some (AxumMessage.close (some (n, f.1)))) (laws.to_u16-from_u16 f.0 h))

-- `u` has the scheme `ws`, and what follows it is what follows `ws` or `web` in `url`.
abbrev pub Speaks : String → String → Str → Str → Type 0
Speaks ws web url u =
    (r : Str) × (u ≡ text ws ++ r) × ((url ≡ text ws ++ r) ⊎ (url ≡ text web ++ r))

-- Each URL that the validation of a WebSocket route accepts is normalised and not refused: ws:// and
-- http:// become ws://, wss:// and https:// become wss://, and the rest of the URL is kept.
pub normalize_ws_url-valid :
    (url : Str)
    → IsWsUrl url
    → (u : Str) × (normalize_ws_url url ≡ inr u)
      × (Speaks "ws://" "http://" url u ⊎ Speaks "wss://" "https://" url u)
unfolding normalize_ws_url text starts_with replace_prefix strip_prefix
normalize_ws_url-valid url (inl (inl (r, e))) = (url, rw e refl, inl (r, e, inl e))
normalize_ws_url-valid url (inl (inr (r, e))) = (url, rw e refl, inr (r, e, inl e))
normalize_ws_url-valid url (inr (inl (r, e))) = (text "ws://" ++ r, rw e refl, inl (r, refl, inr e))
normalize_ws_url-valid url (inr (inr (r, e))) =
    (text "wss://" ++ r, rw e refl, inr (r, refl, inr e))
