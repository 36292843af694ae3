-- ===== src/Transport/Awaiting.antt =====
-- What a future of the transports went through that ended well.
use iron_babel.Base.{ℕ, ◌≡◌, refl, ◌↔◌, none, some, inl, inr}
use iron_babel.Text.{Str}
use iron_babel.Error.{ok, err}
use iron_babel.Transport.{Call, Await, ◌>>=◌, awaited, timeout}

module _ {ℓ} {T : Type ℓ} where
  pub >>=-finished {κ} :
      {U : Type κ} (m : Await T) (next : T → Await U) {u : U}
      → (m >>= next) ≡ some (ok u)
      → (t : T) × (m ≡ some (ok t)) × (next t ≡ some (ok u))
  >>=-finished none next h = cc
  >>=-finished (some (err e)) next h = cc
  >>=-finished (some (ok t)) next h = (t, refl, h)

  pub awaited-finished :
      (label : Str) (call : Call T) {t : T} → awaited label call ≡ some (ok t) → call ≡ some (inr t)
  awaited-finished label none h = cc
  awaited-finished label (some (inl e)) h = cc
  awaited-finished label (some (inr t)) h = cc

  pub timeout_iff :
      (label : Str) (secs : ℕ) (future : Await T) (t : T)
      → (timeout label secs future ≡ ok t) ↔ (future ≡ some (ok t))
  timeout_iff label secs none t = (λ h. cc, λ h. cc)
  timeout_iff label secs (some result) t = (λ h. cc, λ h. cc)
