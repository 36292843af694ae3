-- ===== src/Shutdown.antt =====
-- src/core/shutdown.rs: the latching signal, as the steps of one waiter among others. tokio's
-- `Notify` is an interface. What runs between two accesses to shared state is one step.
pub mod Wakeups
pub mod Silence
use iron_babel.Base.{ℕ, ◌+◌, ◌≡◌, Bool, true, false}

pub record Notify : Type 1 where
  pub State : Type 0
  pub Ticket : Type 0
  pub default : State
  -- `notified()` and `enable()`
  pub enable : State → State × Ticket
  pub notify_waiters : State → State
  pub is_notified : State → Ticket → Bool

-- A call of `notify_waiters` completes every future that was enabled before it, for good.
pub record NotifyLaws (N : Notify) : Type 1 where
  pub Enabled : N.State → N.Ticket → Type 0
  pub enable-Enabled : (s : N.State) → Enabled (N.enable s).0 (N.enable s).1
  pub Enabled-later : (s : N.State) (t : N.Ticket) → Enabled s t → Enabled (N.enable s).0 t
  pub notify-Enabled : (s : N.State) (t : N.Ticket) → Enabled s t → Enabled (N.notify_waiters s) t
  pub notify-wakes :
      (s : N.State) (t : N.Ticket) → Enabled s t → N.is_notified (N.notify_waiters s) t ≡ true
  pub stays_notified :
      (s : N.State) (t : N.Ticket)
      → N.is_notified s t ≡ true
      → N.is_notified (N.enable s).0 t ≡ true

-- Where a task stands in `wait`.
pub data Phase (T : Type 0) : Type 0 where
  looping : Phase T
  enabled : T → Phase T
  parked : T → Phase T
  woken : Phase T
  returned : Phase T

-- `pending` counts the calls of `trigger` that have stored the flag and not yet notified.
pub record Shutdown (N : Notify) : Type 0 where
  pub triggered : Bool
  pub notify : N.State
  pub pending : ℕ
  pub waiter : Phase N.Ticket

module _ (N : Notify) where
  unfoldable pub new : Shutdown N
  new = record { triggered = false; notify = N.default; pending = 0; waiter = Phase.looping }

  unfoldable pub waits_at : Phase N.Ticket → Shutdown N → Shutdown N
  waits_at phase s = record {
    triggered = s.triggered;
    notify = s.notify;
    pending = s.pending;
    waiter = phase;
  }

  unfoldable pub store : Bool → ℕ → Shutdown N → Shutdown N
  store flag more s = record {
    triggered = flag;
    notify = s.notify;
    pending = s.pending + more;
    waiter = s.waiter;
  }

  unfoldable pub notified : N.State → ℕ → Phase N.Ticket → Shutdown N → Shutdown N
  notified notify pending phase s = record {
    triggered = s.triggered;
    notify = notify;
    pending = pending;
    waiter = phase;
  }

  -- The waiter's own steps.
  pub data WaitStep : Shutdown N → Shutdown N → Type 0 where
    enables :
        (s : Shutdown N)
        → s.waiter ≡ Phase.looping
        → WaitStep s
            (notified (N.enable s.notify).0 s.pending (Phase.enabled (N.enable s.notify).1) s)
    sees_trigger :
        (s : Shutdown N) (t : N.Ticket)
        → s.waiter ≡ Phase.enabled t
        → s.triggered ≡ true
        → WaitStep s (waits_at Phase.returned s)
    parks :
        (s : Shutdown N) (t : N.Ticket)
        → s.waiter ≡ Phase.enabled t
        → s.triggered ≡ false
        → WaitStep s (waits_at (Phase.parked t) s)
    wakes :
        (s : Shutdown N) (t : N.Ticket)
        → s.waiter ≡ Phase.parked t
        → N.is_notified s.notify t ≡ true
        → WaitStep s (waits_at Phase.woken s)
    returns :
        (s : Shutdown N)
        → s.waiter ≡ Phase.woken
        → s.triggered ≡ true
        → WaitStep s (waits_at Phase.returned s)
    loops :
        (s : Shutdown N)
        → s.waiter ≡ Phase.woken
        → s.triggered ≡ false
        → WaitStep s (waits_at Phase.looping s)

  -- The steps of all tasks: `trigger` stores the flag and then notifies, `reset` clears the flag, and
  -- other waiters enable their futures.
  pub data Step : Shutdown N → Shutdown N → Type 0 where
    waits : {s u : Shutdown N} → WaitStep s u → Step s u
    stores : (s : Shutdown N) → Step s (store true 1 s)
    notifies :
        (s : Shutdown N) (n : ℕ)
        → s.pending ≡ n + 1
        → Step s (notified (N.notify_waiters s.notify) n s.waiter s)
    resets : (s : Shutdown N) → Step s (store false 0 s)
    other_enables : (s : Shutdown N) → Step s (notified (N.enable s.notify).0 s.pending s.waiter s)

  pub data Run : Shutdown N → Type 0 where
    begins : Run new
    continues : {s u : Shutdown N} → Run s → Step s u → Run u

  -- What the waiter reaches by steps of its own.
  pub data WaitSteps : Shutdown N → Shutdown N → Type 0 where
    stays : (s : Shutdown N) → WaitSteps s s
    goes_on : {s u v : Shutdown N} → WaitStep s u → WaitSteps u v → WaitSteps s v
