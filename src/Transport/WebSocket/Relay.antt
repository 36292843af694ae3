-- ===== src/Transport/WebSocket/Relay.antt =====
-- What the WebSocket proxy forwards while both sinks take what they are given.
use iron_babel.Base.{
  ◌≡◌, Bool, true, false, Option, none, some, List, [], ◌∷◌, ◌++◌, inl, inr, if◌then◌else◌, ◌||◌,
}
use iron_babel.Transport.WebSocket.{
  AxumMessage, CloseCodes, TungsteniteMessage, Next, axum_to_tungstenite, tungstenite_to_axum,
  is_axum_close, is_tungstenite_close, Arrival, from_client, from_backend, Sinks, Proxy, run_both,
}

abbrev pub listed : {B : Type 0} → Option B → List B
listed none = []
listed (some b) = b ∷ []

module _ {A B : Type 0} (is_close : A → Bool) (convert : A → Option B) where
  -- What one item of a stream is worth, and whether it ends the loop.
  abbrev pub payload : Next A → List B
  payload none = []
  payload (some (inl e)) = []
  payload (some (inr msg)) = listed (convert msg)

  abbrev pub ends : Next A → Bool
  ends none = true
  ends (some (inl e)) = true
  ends (some (inr msg)) = is_close msg

module _ (C : CloseCodes) where
  -- What an arrival is worth to the backend and to the client, and whether it ends the session.
  abbrev pub for_backend : Arrival C → List (TungsteniteMessage C)
  for_backend (from_client next) = payload is_axum_close (axum_to_tungstenite C) next
  for_backend (from_backend next) = []

  abbrev pub for_client : Arrival C → List AxumMessage
  for_client (from_client next) = []
  for_client (from_backend next) = payload (is_tungstenite_close C) (tungstenite_to_axum C) next

  abbrev pub by_client : Arrival C → Bool
  by_client (from_client next) = ends is_axum_close (axum_to_tungstenite C) next
  by_client (from_backend next) = false

  abbrev pub by_backend : Arrival C → Bool
  by_backend (from_client next) = false
  by_backend (from_backend next) = ends (is_tungstenite_close C) (tungstenite_to_axum C) next

  abbrev pub ends_session : Arrival C → Bool
  ends_session a = by_client a || by_backend a

  -- The arrivals up to the first that ends the session, that one included.
  abbrev pub session : List (Arrival C) → List (Arrival C)
  session [] = []
  session (a ∷ arrivals) = if ends_session a then a ∷ [] else a ∷ session arrivals

  abbrev pub all_for_backend : List (Arrival C) → List (TungsteniteMessage C)
  all_for_backend [] = []
  all_for_backend (a ∷ arrivals) = for_backend a ++ all_for_backend arrivals

  abbrev pub all_for_client : List (Arrival C) → List AxumMessage
  all_for_client [] = []
  all_for_client (a ∷ arrivals) = for_client a ++ all_for_client arrivals

  -- Both sinks take every message.
  abbrev pub IsTaking : Sinks C → Type 0
  IsTaking sinks =
      ((sent : List (TungsteniteMessage C)) (m : TungsteniteMessage C)
        → sinks.to_backend sent m ≡ true)
      × ((sent : List AxumMessage) (m : AxumMessage) → sinks.to_client sent m ≡ true)

  module _ (sinks : Sinks C) (taking : IsTaking sinks) where
    abbrev proxy : List (TungsteniteMessage C) → Bool → List AxumMessage → Bool → Proxy C
    proxy s a t b = record {
      c2b = record { sent = s; finished = a };
      b2c = record { sent = t; finished = b };
    }

    abbrev Forwards : List (TungsteniteMessage C) → List AxumMessage → List (Arrival C) → Type 0
    Forwards s t arrivals =
        ((run_both C sinks (proxy s false t false) arrivals).c2b.sent
          ≡ s ++ all_for_backend (session arrivals))
        × ((run_both C sinks (proxy s false t false) arrivals).b2c.sent
            ≡ t ++ all_for_client (session arrivals))
