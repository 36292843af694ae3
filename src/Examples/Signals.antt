-- ===== src/Examples/Signals.antt =====
-- The shutdown signal over a counter of notifications.
use iron_babel.Base.{ℕ, ◌+◌, ◌≤◌, ◌≡◌, refl, true, false, arith, ltb, lt→ltb}
use iron_babel.Shutdown.{
  Notify, NotifyLaws, Phase, Shutdown, new, store, notified, waits_at, WaitStep, Step, Run,
}
use iron_babel.Shutdown.Wakeups.{CanReturn, Run-CanReturn}
use iron_babel.Shutdown.Silence.{QuietSteps, IsWaiting, QuietSteps-IsWaiting}

abbrev counter : Notify
counter = record {
  State = ℕ;
  Ticket = ℕ;
  default = 0;
  enable = λ s. (s, s);
  notify_waiters = λ s. s + 1;
  is_notified = λ s t. ltb t s;
}

counter_laws : NotifyLaws counter
counter_laws = record {
  Enabled = λ s t. t ≤ s;
  enable-Enabled = λ s. omega arith;
  Enabled-later = λ s t h. h;
  notify-Enabled = λ s t h. omega (arith, h);
  notify-wakes = λ s t h. lt→ltb t (s + 1) (omega (arith, h));
  stays_notified = λ s t h. h;
}

-- The waiter parks, and then a trigger stores the flag and notifies.
abbrev waiting : Shutdown counter
waiting = waits_at counter (Phase.parked 0) (notified counter 0 0 (Phase.enabled 0) (new counter))

abbrev triggered : Shutdown counter
triggered = notified counter 1 0 (Phase.parked 0) (store counter true 1 waiting)

triggered-Run : Run counter triggered
unfolding new store notified waits_at
triggered-Run =
    Run.continues
      (Run.continues
        (Run.continues (Run.continues Run.begins (Step.waits (WaitStep.enables (new counter) refl)))
          (Step.waits
            (WaitStep.parks (notified counter 0 0 (Phase.enabled 0) (new counter)) 0 refl refl)))
        (Step.stores waiting))
      (Step.notifies (store counter true 1 waiting) 0 refl)

flag_set : triggered.triggered ≡ true
unfolding new store notified waits_at
flag_set = refl

all_notified : triggered.pending ≡ 0
unfolding new store notified waits_at
all_notified = refl

Run-CanReturn_example : CanReturn counter counter_laws triggered
Run-CanReturn_example =
    Run-CanReturn counter counter_laws triggered triggered-Run flag_set all_notified

-- A reset comes before the waiter that the trigger has notified runs: it finds the flag clear and
-- waits again.
abbrev restarted : Shutdown counter
restarted = store counter false 0 triggered

abbrev looping_again : Shutdown counter
looping_again = waits_at counter Phase.looping (waits_at counter Phase.woken restarted)

waits_again : QuietSteps counter restarted looping_again
unfolding new store notified waits_at
waits_again = QuietSteps.waits (WaitStep.wakes restarted 0 refl refl) (
    QuietSteps.waits (WaitStep.loops (waits_at counter Phase.woken restarted) refl refl)
      (QuietSteps.stays looping_again))

flag_clear : restarted.triggered ≡ false
unfolding store
flag_clear = refl

not_returned : IsWaiting counter restarted.waiter
unfolding new store notified waits_at
not_returned = tt

QuietSteps-IsWaiting_example :
    (looping_again.triggered ≡ false) × IsWaiting counter looping_again.waiter
QuietSteps-IsWaiting_example = QuietSteps-IsWaiting counter waits_again flag_clear not_returned
