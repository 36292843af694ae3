-- ===== src/Transport/Listening.antt =====
-- The loop of the listeners of src/gateway: sessions one after the other until the signal.
use iron_babel.Base.{◌≡◌, true, List, [], ◌∷◌, ◌++◌}
use iron_babel.Transport.{Session, shutdown_first, other_first, Round}

module _ {ℓ} {S : Type ℓ} {E : Type 0} (run : S → Session E) where
  -- The session ends by itself, and the delay after it passes before the signal.
  pub record IsPassed (r : Round S) : Type ℓ where
    pub not_stopped : r.while_running ≡ other_first
    pub session_returned : (run r.session).returned ≡ true
    pub not_woken : r.while_waiting ≡ other_first

  -- The signal comes first in one of the round's races.
  pub data IsStopped (r : Round S) : Type ℓ where
    running : r.while_running ≡ shutdown_first → IsStopped r
    waiting :
        r.while_running ≡ other_first
        → (run r.session).returned ≡ true
        → r.while_waiting ≡ shutdown_first
        → IsStopped r

  -- The effects of the sessions in order.
  abbrev pub effects_of : List (Round S) → List E
  effects_of [] = []
  effects_of (r ∷ rounds) = (run r.session).effects ++ effects_of rounds
