-- ===== src/Shutdown/Silence.antt =====
-- The waiters of src/core/shutdown.rs while no trigger stores the flag.
use iron_babel.Base.{ℕ, ◌+◌, ◌≡◌, refl, false}
use iron_babel.Shutdown.{Notify, Phase, Shutdown, waits_at, store, notified, WaitStep}

module _ (N : Notify) where
  -- Steps of all tasks in which no trigger stores the flag.
  pub data QuietSteps : Shutdown N → Shutdown N → Type 0 where
    stays : (s : Shutdown N) → QuietSteps s s
    waits : {s u v : Shutdown N} → WaitStep N s u → QuietSteps u v → QuietSteps s v
    notifies :
        (s : Shutdown N) (n : ℕ) {v : Shutdown N}
        → s.pending ≡ n + 1
        → QuietSteps (notified N (N.notify_waiters s.notify) n s.waiter s) v
        → QuietSteps s v
    resets : (s : Shutdown N) {v : Shutdown N} → QuietSteps (store N false 0 s) v → QuietSteps s v
    other_enables :
        (s : Shutdown N) {v : Shutdown N}
        → QuietSteps (notified N (N.enable s.notify).0 s.pending s.waiter s) v
        → QuietSteps s v

  abbrev pub IsWaiting : Phase N.Ticket → Type 0
  IsWaiting Phase.returned = ⊥
  IsWaiting _ = Unit {0}

  WaitStep-IsWaiting :
      {s u : Shutdown N}
      → WaitStep N s u
      → s.triggered ≡ false
      → IsWaiting s.waiter
      → (u.triggered ≡ false) × IsWaiting u.waiter
  unfolding waits_at notified
  WaitStep-IsWaiting (WaitStep.enables s e) off h = (off, tt)
  WaitStep-IsWaiting (WaitStep.sees_trigger s t e f) off h = absurd (cc (f, off))
  WaitStep-IsWaiting (WaitStep.parks s t e f) off h = (off, tt)
  WaitStep-IsWaiting (WaitStep.wakes s t e f) off h = (off, tt)
  WaitStep-IsWaiting (WaitStep.returns s e f) off h = absurd (cc (f, off))
  WaitStep-IsWaiting (WaitStep.loops s e f) off h = (off, tt)

  -- A waiter that has not returned when the flag is clear, woken or not, does not return before a
  -- trigger stores the flag, whatever notifications of earlier triggers, resets and other waiters
  -- come between.
  pub QuietSteps-IsWaiting :
      {s u : Shutdown N}
      → QuietSteps s u
      → s.triggered ≡ false
      → IsWaiting s.waiter
      → (u.triggered ≡ false) × IsWaiting u.waiter
  unfolding store notified
  QuietSteps-IsWaiting (stays s) off h = (off, h)
  QuietSteps-IsWaiting (waits w rest) off h =
      let (off', h') = WaitStep-IsWaiting w off h in QuietSteps-IsWaiting rest off' h'
  QuietSteps-IsWaiting (notifies s n e rest) off h = QuietSteps-IsWaiting rest off h
  QuietSteps-IsWaiting (resets s rest) off h = QuietSteps-IsWaiting rest refl h
  QuietSteps-IsWaiting (other_enables s rest) off h = QuietSteps-IsWaiting rest off h
