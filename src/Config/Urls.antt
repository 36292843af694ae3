-- ===== src/Config/Urls.antt =====
-- What the URL helpers of src/config/mod.rs accept: a text with one of their schemes before it.
use iron_babel.Base.{
  ◌≡◌, refl, ◌↔◌, ◌⊎◌, inl, inr, String, Bool, false, true, not, ◌||◌, ◌++◌, arith,
}
use iron_babel.Text.{Str, text, is_blank, starts_with}
use iron_babel.Text.Laws.{starts_with_iff}
use iron_babel.Error.{Error, ok, ◌>>◌, reject_if}
use iron_babel.Config.Checks.{
  validate_http_url, validate_ws_url, validate_mqtt_broker_url, validate_amqp_broker_url,
}

abbrev pub HasScheme : String → Str → Type 0
HasScheme s url = (r : Str) × (url ≡ text s ++ r)

abbrev pub IsHttpUrl : Str → Type 0
IsHttpUrl url = HasScheme "http://" url ⊎ HasScheme "https://" url

abbrev pub IsWsUrl : Str → Type 0
IsWsUrl url = (HasScheme "ws://" url ⊎ HasScheme "wss://" url) ⊎ IsHttpUrl url

abbrev pub IsMqttUrl : Str → Type 0
IsMqttUrl url =
    (HasScheme "mqtt://" url ⊎ HasScheme "mqtts://" url)
    ⊎ (HasScheme "tcp://" url ⊎ HasScheme "ssl://" url)

abbrev pub IsAmqpUrl : Str → Type 0
IsAmqpUrl url = HasScheme "amqp://" url ⊎ HasScheme "amqps://" url

-- A text that begins with a scheme is not blank.
not_blank :
    (s : String) (url : Str)
    → ((r : Str) → is_blank (text s ++ r) ≡ false)
    → starts_with (text s) url ≡ true
    → is_blank url ≡ false
not_blank s url h e = let (r, q) = (starts_with_iff (text s) url).0 e in rw q (h r)

⊎-iff : {A B C D : Type 0} → A ↔ C → B ↔ D → (A ⊎ B) ↔ (C ⊎ D)
⊎-iff f g = (
  elim [ inl a ↦ inl (f.0 a) | inr b ↦ inr (g.0 b) ],
  elim [ inl c ↦ inl (f.1 c) | inr d ↦ inr (g.1 d) ],
)

↔-trans : {A B C : Type 0} → A ↔ B → B ↔ C → A ↔ C
↔-trans f g = (λ a. g.0 (f.0 a), λ c. f.1 (g.1 c))

-- A blank test and a scheme test in a row pass exactly when the scheme test does.
checked_iff :
    (blank found : Bool) (e f : Error)
    → (found ≡ true → blank ≡ false)
    → ((reject_if blank e >> reject_if (not found) f) ≡ ok tt) ↔ (found ≡ true)
checked_iff blank found e f h = ground arith

four_iff :
    (a b c d : Bool)
    → ((a || b || (c || d)) ≡ true) ↔ (((a ≡ true) ⊎ (b ≡ true)) ⊎ ((c ≡ true) ⊎ (d ≡ true)))
four_iff a b c d = ground arith

any_of : {A B C D E : Type 0} → (A → E) → (B → E) → (C → E) → (D → E) → (A ⊎ B) ⊎ (C ⊎ D) → E
any_of a b c d = elim [
  | inl x ↦ elim x [ inl y ↦ a y | inr y ↦ b y ]
  | inr x ↦ elim x [ inl y ↦ c y | inr y ↦ d y ]
]

module _ (url context : Str) where
  abbrev Starts : String → Type 0
  Starts s = starts_with (text s) url ≡ true

  scheme : (s : String) → Starts s ↔ HasScheme s url
  scheme s = starts_with_iff (text s) url

  http-Starts : (validate_http_url url context ≡ ok tt) ↔ (Starts "http://" ⊎ Starts "https://")
  unfolding validate_http_url text is_blank
  http-Starts =
      ground (arith, not_blank "http://" url (λ r. refl), not_blank "https://" url (λ r. refl))

  ws-Starts :
      (validate_ws_url url context ≡ ok tt)
      ↔ ((Starts "ws://" ⊎ Starts "wss://") ⊎ (Starts "http://" ⊎ Starts "https://"))
  unfolding validate_ws_url text is_blank
  ws-Starts =
      ↔-trans
        (checked_iff (is_blank url) _ _ _ λ h.
          any_of (not_blank "ws://" url (λ r. refl)) (not_blank "wss://" url (λ r. refl))
            (not_blank "http://" url (λ r. refl)) (not_blank "https://" url (λ r. refl))
            ((four_iff _ _ _ _).0 h))
        (four_iff _ _ _ _)

  mqtt-Starts :
      (validate_mqtt_broker_url url context ≡ ok tt)
      ↔ ((Starts "mqtt://" ⊎ Starts "mqtts://") ⊎ (Starts "tcp://" ⊎ Starts "ssl://"))
  unfolding validate_mqtt_broker_url text is_blank
  mqtt-Starts =
      ↔-trans
        (checked_iff (is_blank url) _ _ _ λ h.
          any_of (not_blank "mqtt://" url (λ r. refl)) (not_blank "mqtts://" url (λ r. refl))
            (not_blank "tcp://" url (λ r. refl)) (not_blank "ssl://" url (λ r. refl))
            ((four_iff _ _ _ _).0 h))
        (four_iff _ _ _ _)

  amqp-Starts :
      (validate_amqp_broker_url url context ≡ ok tt) ↔ (Starts "amqp://" ⊎ Starts "amqps://")
  unfolding validate_amqp_broker_url text is_blank
  amqp-Starts =
      ground (arith, not_blank "amqp://" url (λ r. refl), not_blank "amqps://" url (λ r. refl))

  pub validate_http_url_iff : (validate_http_url url context ≡ ok tt) ↔ IsHttpUrl url
  validate_http_url_iff = ↔-trans http-Starts (⊎-iff (scheme _) (scheme _))

  pub validate_ws_url_iff : (validate_ws_url url context ≡ ok tt) ↔ IsWsUrl url
  validate_ws_url_iff =
      ↔-trans ws-Starts (⊎-iff (⊎-iff (scheme _) (scheme _)) (⊎-iff (scheme _) (scheme _)))

  pub validate_mqtt_broker_url_iff : (validate_mqtt_broker_url url context ≡ ok tt) ↔ IsMqttUrl url
  validate_mqtt_broker_url_iff =
      ↔-trans mqtt-Starts (⊎-iff (⊎-iff (scheme _) (scheme _)) (⊎-iff (scheme _) (scheme _)))

  pub validate_amqp_broker_url_iff : (validate_amqp_broker_url url context ≡ ok tt) ↔ IsAmqpUrl url
  validate_amqp_broker_url_iff = ↔-trans amqp-Starts (⊎-iff (scheme _) (scheme _))
