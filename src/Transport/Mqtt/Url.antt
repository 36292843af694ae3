-- ===== src/Transport/Mqtt/Url.antt =====
-- The broker's URL as the MQTT transport reads it, and the ids that it gives to its clients.
use iron_babel.Base.{
  ℕ, Bool, true, false, ◌≡◌, refl, ◌≤◌, ◌==◌, none, some, [], ◌∷◌, ◌++◌, any, arith, All, All_map,
  All-append, ◌≢◌,
}
use iron_babel.Text.{Str, text, is_empty, strip_prefix, decimal}
use iron_babel.Text.Decimal.{parse_unsigned-decimal, decimal-injective, IsDigit, decimal-IsDigit}
use iron_babel.Error.{ok}
use iron_babel.Transport.Mqtt.{
  rsplit_once, with_port, plain, split_host_port, scheme_of, has_path, endpoint_of,
  parse_broker_url, next_client_id,
}

-- The four schemes, and whether each asks for TLS.
pub data Scheme : Str → Bool → Type 0 where
  mqtt : Scheme (text "mqtt://") false
  tcp : Scheme (text "tcp://") false
  mqtts : Scheme (text "mqtts://") true
  ssl : Scheme (text "ssl://") true

-- A byte that a host may have.
abbrev pub IsHostByte : ℕ → Type 0
IsHostByte c = (c ≢ b'/') × (c ≢ b'?') × (c ≢ b'#')

-- A host that is no address in brackets.
pub record IsHost (host : Str) : Type 0 where
  pub bytes : All IsHostByte host
  pub not_bracketed : strip_prefix (text "[") host ≡ none
  pub not_empty : is_empty host ≡ false

scheme_of_lem :
    (scheme : Str) (tls : Bool) (rest : Str)
    → Scheme scheme tls
    → scheme_of (scheme ++ rest) ≡ some (tls, rest)
unfolding scheme_of strip_prefix text
scheme_of_lem _ _ rest mqtt = refl
scheme_of_lem _ _ rest tcp = refl
scheme_of_lem _ _ rest mqtts = refl
scheme_of_lem _ _ rest ssl = refl

rsplit_once-absent : (b : ℕ) (s : Str) → All (λ c. c ≢ b) s → rsplit_once b s ≡ none
unfolding rsplit_once
rsplit_once-absent b [] h = refl
rsplit_once-absent b (c ∷ s) h = ground (arith, rsplit_once-absent b s, h.0)

-- The last `b` is the one that no other follows.
rsplit_once-last :
    (b : ℕ) (h s : Str) → All (λ c. c ≢ b) s → rsplit_once b (h ++ b ∷ s) ≡ some (h, s)
unfolding rsplit_once
rsplit_once-last b [] s no_b = ground (arith, rsplit_once-absent b s no_b)
rsplit_once-last b (c ∷ h) s no_b = ground (arith, rsplit_once-last b h s no_b)

any-none : (b : ℕ) (s : Str) → All (λ c. c ≢ b) s → any (λ c. c == b) s ≡ false
unfolding any
any-none b [] h = refl
any-none b (c ∷ s) h = ground (arith, any-none b s, h.0)

has_path-none : (s : Str) → All IsHostByte s → has_path s ≡ false
unfolding has_path
has_path-none s h =
    rw
      (
        any-none b'/' s (All_map IsHostByte (λ c. c ≢ b'/') (λ c i. i.0) s h),
        any-none b'?' s (All_map IsHostByte (λ c. c ≢ b'?') (λ c i. i.1) s h),
        any-none b'#' s (All_map IsHostByte (λ c. c ≢ b'#') (λ c i. i.2) s h),
      )
      refl

not_bracketed-append :
    (host s : Str)
    → strip_prefix (text "[") host ≡ none
    → is_empty host ≡ false
    → strip_prefix (text "[") (host ++ s) ≡ none
unfolding strip_prefix text is_empty
not_bracketed-append [] s h e = cc
not_bracketed-append (c ∷ host) s h e = ground arith

is_empty-append : (host s : Str) → is_empty host ≡ false → is_empty (host ++ s) ≡ false
unfolding is_empty
is_empty-append [] s h = cc
is_empty-append (c ∷ host) s h = refl

module _ (host : Str) (port : ℕ) (good : IsHost host) (fits : port ≤ 65535) where
  abbrev authority : Str
  authority = host ++ b':' ∷ decimal port

  split_host_port_lem : split_host_port authority ≡ some (host, port)
  unfolding split_host_port plain with_port
  split_host_port_lem =
      rw
        (
          not_bracketed-append host (b':' ∷ decimal port) good.not_bracketed good.not_empty,
          rsplit_once-last b':' host (decimal port) (
              All_map IsDigit (λ c. c ≢ b':') (λ c d. omega arith) (decimal port)
                (decimal-IsDigit port)),
          good.not_empty,
          parse_unsigned-decimal 65535 port fits,
          split_host_port,
          plain,
          with_port,
        )
        refl

  authority-IsHostByte : All IsHostByte authority
  authority-IsHostByte = All-append IsHostByte host (b':' ∷ decimal port) good.bytes (
    (omega arith, omega arith, omega arith),
    All_map IsDigit IsHostByte (λ c d. (omega arith, omega arith, omega arith)) (decimal port)
        (decimal-IsDigit port),
  )

-- A broker's URL that is put together from one of the four schemes, a host without brackets and a
-- port of 16 bits in decimal is parsed into that host, that port and what the scheme says of TLS.
pub parse_broker_url-print :
    (scheme host : Str) (tls : Bool) (port : ℕ)
    → Scheme scheme tls
    → IsHost host
    → port ≤ 65535
    → parse_broker_url (scheme ++ (host ++ b':' ∷ decimal port))
      ≡ ok (record { host = host; port = port; tls = tls })
unfolding parse_broker_url endpoint_of
parse_broker_url-print scheme host tls port s good fits =
    rw
      (
        scheme_of_lem scheme tls (host ++ b':' ∷ decimal port) s,
        is_empty-append host (b':' ∷ decimal port) good.not_empty,
        has_path-none (host ++ b':' ∷ decimal port) (authority-IsHostByte host port good fits),
        split_host_port_lem host port good fits,
        parse_broker_url,
        endpoint_of,
      )
      refl

cancel_left : (p s t : Str) → p ++ s ≡ p ++ t → s ≡ t
cancel_left [] s t e = e
cancel_left (c ∷ p) s t e = cancel_left p s t (cc)

-- Ids from different values of the counter are different.
pub next_client_id-injective :
    (prefix : Str) (m n : ℕ) → (next_client_id prefix m).0 ≡ (next_client_id prefix n).0 → m ≡ n
unfolding next_client_id text
next_client_id-injective prefix m n e =
    decimal-injective m n (cancel_left (text "-") _ _ (cancel_left prefix _ _ e))
