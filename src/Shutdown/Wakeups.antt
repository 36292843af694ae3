-- ===== src/Shutdown/Wakeups.antt =====
-- The waiters of src/core/shutdown.rs once a trigger has completed.
use iron_babel.Base.{ℕ, ◌+◌, ◌<◌, ◌≡◌, refl, subst, ◌⊎◌, inl, inr, Bool, true, false, arith}
use iron_babel.Shutdown.{
  Notify, NotifyLaws, Phase, Shutdown, new, waits_at, store, notified, WaitStep, Step, Run,
  WaitSteps,
}

module _ (N : Notify) (laws : NotifyLaws N) where
  -- What holds of a waiter at a phase.
  abbrev IsServed : Bool → N.State → ℕ → Phase N.Ticket → Type 0
  IsServed triggered notify pending (Phase.enabled t) = laws.Enabled notify t
  IsServed triggered notify pending (Phase.parked t) =
      laws.Enabled notify t × (triggered ≡ true → (0 < pending) ⊎ (N.is_notified notify t ≡ true))
  IsServed triggered notify pending _ = Unit

  abbrev IsServedIn : Shutdown N → Type 0
  IsServedIn s = IsServed s.triggered s.notify s.pending s.waiter

  stores_true :
      (p : Phase N.Ticket) (b : Bool) (n : N.State) (k : ℕ)
      → IsServed b n k p
      → IsServed true n (k + 1) p
  stores_true Phase.looping b n k h = tt
  stores_true (Phase.enabled t) b n k h = h
  stores_true (Phase.parked t) b n k h = (h.0, λ e. inl (omega arith))
  stores_true Phase.woken b n k h = tt
  stores_true Phase.returned b n k h = tt

  stores_false :
      (p : Phase N.Ticket) (b : Bool) (n : N.State) (k : ℕ)
      → IsServed b n k p
      → IsServed false n (k + 0) p
  stores_false Phase.looping b n k h = tt
  stores_false (Phase.enabled t) b n k h = h
  stores_false (Phase.parked t) b n k h = (h.0, λ e. cc)
  stores_false Phase.woken b n k h = tt
  stores_false Phase.returned b n k h = tt

  after_notify :
      (p : Phase N.Ticket) (b : Bool) (n : N.State) (k m : ℕ)
      → IsServed b n k p
      → IsServed b (N.notify_waiters n) m p
  after_notify Phase.looping b n k m h = tt
  after_notify (Phase.enabled t) b n k m h = laws.notify-Enabled n t h
  after_notify (Phase.parked t) b n k m h =
      (laws.notify-Enabled n t h.0, λ e. inr (laws.notify-wakes n t h.0))
  after_notify Phase.woken b n k m h = tt
  after_notify Phase.returned b n k m h = tt

  after_enable :
      (p : Phase N.Ticket) (b : Bool) (n : N.State) (k : ℕ)
      → IsServed b n k p
      → IsServed b (N.enable n).0 k p
  after_enable Phase.looping b n k h = tt
  after_enable (Phase.enabled t) b n k h = laws.Enabled-later n t h
  after_enable (Phase.parked t) b n k h = (
    laws.Enabled-later n t h.0,
    λ e. elim (h.1 e) [ inl waiting ↦ inl waiting | inr done ↦ inr (laws.stays_notified n t done) ],
  )
  after_enable Phase.woken b n k h = tt
  after_enable Phase.returned b n k h = tt

  WaitStep-IsServedIn : {s u : Shutdown N} → WaitStep N s u → IsServedIn s → IsServedIn u
  unfolding waits_at notified
  WaitStep-IsServedIn (WaitStep.enables s e) h = laws.enable-Enabled s.notify
  WaitStep-IsServedIn (WaitStep.sees_trigger s t e f) h = tt
  WaitStep-IsServedIn (WaitStep.parks s t e f) h =
      (subst (IsServed s.triggered s.notify s.pending) e h, λ g. cc)
  WaitStep-IsServedIn (WaitStep.wakes s t e f) h = tt
  WaitStep-IsServedIn (WaitStep.returns s e f) h = tt
  WaitStep-IsServedIn (WaitStep.loops s e f) h = tt

  Step-IsServedIn : {s u : Shutdown N} → Step N s u → IsServedIn s → IsServedIn u
  unfolding store notified
  Step-IsServedIn (Step.waits w) h = WaitStep-IsServedIn w h
  Step-IsServedIn (Step.stores s) h = stores_true s.waiter s.triggered s.notify s.pending h
  Step-IsServedIn (Step.notifies s n e) h = after_notify s.waiter s.triggered s.notify s.pending n h
  Step-IsServedIn (Step.resets s) h = stores_false s.waiter s.triggered s.notify s.pending h
  Step-IsServedIn (Step.other_enables s) h = after_enable s.waiter s.triggered s.notify s.pending h

  Run-IsServedIn : {s : Shutdown N} → Run N s → IsServedIn s
  unfolding new
  Run-IsServedIn Run.begins = tt
  Run-IsServedIn (Run.continues r step) = Step-IsServedIn step (Run-IsServedIn r)

  ends : {s u : Shutdown N} → WaitStep N s u → WaitSteps N s u
  ends step = WaitSteps.goes_on step (WaitSteps.stays _)

  -- The waiter can return by steps of its own.
  abbrev pub CanReturn : Shutdown N → Type 0
  CanReturn s = (u : Shutdown N) × WaitSteps N s u × (u.waiter ≡ Phase.returned)

  can_return :
      (p : Phase N.Ticket) (s : Shutdown N)
      → s.waiter ≡ p
      → IsServedIn s
      → s.triggered ≡ true
      → s.pending ≡ 0
      → CanReturn s
  unfolding waits_at notified
  can_return Phase.looping s at h on quiet = (
    _,
    WaitSteps.goes_on (WaitStep.enables s at) (ends (WaitStep.sees_trigger _ _ refl on)),
    refl,
  )
  can_return (Phase.enabled t) s at h on quiet = (_, ends (WaitStep.sees_trigger s t at on), refl)
  can_return (Phase.parked t) s at h on quiet =
      let served = subst (IsServed s.triggered s.notify s.pending) at h in
      elim (served.1 on) [
        | inl waiting ↦ absurd (omega (arith, waiting, quiet))
        | inr done ↦ (
          _,
          WaitSteps.goes_on (WaitStep.wakes s t at done) (ends (WaitStep.returns _ refl on)),
          refl,
        )
      ]
  can_return Phase.woken s at h on quiet = (_, ends (WaitStep.returns s at on), refl)
  can_return Phase.returned s at h on quiet = (s, WaitSteps.stays s, at)

  -- In every state that is reached, with any interleaving of triggers, resets and other waiters: if
  -- the flag is set and each trigger so far has notified, the waiter, wherever it stands, returns by
  -- steps of its own.
  pub Run-CanReturn : (s : Shutdown N) → Run N s → s.triggered ≡ true → s.pending ≡ 0 → CanReturn s
  Run-CanReturn s r on quiet = can_return s.waiter s refl (Run-IsServedIn r) on quiet
