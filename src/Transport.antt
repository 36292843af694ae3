-- ===== src/Transport.antt =====
-- src/gateway: what the transports share. A call of a client library ends with its value or with
-- the text of its error, or has not ended when the time limit passes.
pub mod Awaiting
pub mod Listening
pub mod Mqtt
pub mod Amqp
pub mod Zmq
pub mod WebSocket
use iron_babel.Base.{ℕ, Bool, true, false, Option, none, some, List, [], ◌∷◌, ◌++◌, ◌⊎◌, inl, inr}
use iron_babel.Text.{Str, text, decimal}
use iron_babel.Error.{Error, Result, ok, err}
use iron_babel.HttpGuard.{Header}
use iron_babel.Upstream.{UpstreamRequest}

abbrev pub Call {ℓ} : Type ℓ → Type ℓ
Call T = Option (Str ⊎ T)

-- A future of the program's own code; none while it runs.
abbrev pub Await {ℓ} : Type ℓ → Type ℓ
Await T = Option (Result T)

infixl 5 ◌>>=◌
abbrev pub ◌>>=◌ {ℓ κ} : {T : Type ℓ} {U : Type κ} → Await T → (T → Await U) → Await U
none >>= next = none
some (err e) >>= next = some (err e)
some (ok t) >>= next = next t

-- `call.await.map_err(|e| Error::Protocol(format!("{label}{e}")))?`
abbrev pub awaited {ℓ} : {T : Type ℓ} → Str → Call T → Await T
awaited label none = none
awaited label (some (inl e)) = some (err (Error.protocol (label ++ e)))
awaited label (some (inr t)) = some (ok t)

-- `tokio::time::timeout(..).await.map_err(..)?`
abbrev pub timeout {ℓ} : {T : Type ℓ} → Str → ℕ → Await T → Result T
timeout label secs none = err (Error.protocol (label ++ (decimal secs ++ text "s")))
timeout label secs (some result) = result

-- The POST with which a listener passes a message on; reqwest's time limit is 30 seconds.
abbrev pub post : Str → List Header → Str → UpstreamRequest
post forward_to headers payload = record {
  method = text "POST";
  url = forward_to;
  timeout_secs = 30;
  headers = (text "content-type", text "application/octet-stream") ∷ headers;
  body = payload;
}

-- What a session has done so far, and whether it has returned.
pub record Session (E : Type 0) : Type 0 where
  pub effects : List E
  pub returned : Bool

abbrev pub running : {E : Type 0} → Session E
running = record { effects = []; returned = false }

abbrev pub over : {E : Type 0} → Session E
over = record { effects = []; returned = true }

unfoldable pub before : {E : Type 0} → E → Session E → Session E
before e s = record { effects = e ∷ s.effects; returned = s.returned }

-- `let _ = call.await; return;`
abbrev pub returns_after : {E : Type 0} → Call (Unit {0}) → Session E
returns_after none = running
returns_after (some _) = over

-- Which branch of a `select!` completes first.
pub data Race : Type 0 where
  shutdown_first other_first : Race

-- One round of a listener's loop: what its session meets, and its two races.
pub record Round {ℓ} (S : Type ℓ) : Type ℓ where
  pub session : S
  pub while_running : Race
  pub while_waiting : Race

-- The loop of each listener over the rounds so far. A session that has not returned cannot complete
-- first.
unfoldable pub listen {ℓ} : {S : Type ℓ} {E : Type 0} → (S → Session E) → List (Round S) → Session E
listen run [] = record { effects = []; returned = false }
listen run (r ∷ rounds) =
    let s = run r.session in
    let rest = listen run rounds in
    elim (r.while_running) [
      | shutdown_first ↦ record { effects = s.effects; returned = true }
      | other_first ↦ elim (s.returned) [
        | false ↦ s
        | true ↦ elim (r.while_waiting) [
          | shutdown_first ↦ s
          | other_first ↦ record { effects = s.effects ++ rest.effects; returned = rest.returned }
        ]
      ]
    ]
