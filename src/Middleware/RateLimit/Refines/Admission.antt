-- ===== src/Middleware/RateLimit/Refines/Admission.antt =====
-- What the limiter promises a part of the program that acts only on the requests it lets through.
use iron_babel.Base.{
  ℕ, ◌+◌, ◌≤◌, ◌≡◌, refl, sym, ◌∙◌, Bool, true, false, List, [], ◌∷◌, ◌++◌, arith, length, subst,
  retain,
}
use iron_babel.Text.{Str}
use iron_babel.Middleware.RateLimit.{Limits, recent, timestamps_of, is_rate_limited}
use iron_babel.Middleware.RateLimit.Window.{Log, times_of, length-recent_le, times_of-append}
use iron_babel.Middleware.RateLimit.Refines.{
  log_step, Refines, Refines-later, is_rate_limited-log_step, IsWithinLimit, log_step-IsWithinLimit,
  nothing_admitted,
}

module _ (limit window : ℕ) where
  -- Of each client and in each later window, `got` has at most as many requests as `log`.
  abbrev IsCovered : Log → Log → Type 0
  IsCovered got log =
      (at : ℕ) (k : Str)
      → length (recent at window (times_of k got)) ≤ length (recent at window (times_of k log))

  -- The map of the limiter after requests of which those in `got` were acted on.
  pub record Ledger (now : ℕ) (limits : Limits) (got : Log) : Type 0 where
    log : Log
    refines : Refines limit window now limits log
    within : IsWithinLimit limit window now log
    covered : IsCovered got log

  pub Ledger-empty : Ledger 0 [] []
  unfolding IsWithinLimit times_of timestamps_of
  Ledger-empty = record {
    log = [];
    refines = record { distinct = tt; same = λ k. refl };
    within = λ k. nothing_admitted limit window k;
    covered = λ at k. omega arith;
  }

  pub Ledger-later :
      (now later : ℕ) (limits : Limits) (got : Log)
      → now ≤ later
      → Ledger now limits got
      → Ledger later limits got
  unfolding IsWithinLimit
  Ledger-later now later limits got h l = record {
    log = l.log;
    refines = Refines-later limit window h l.refines;
    within = λ k. omega (arith, l.within k, length-recent_le window now later (times_of k l.log) h);
    covered = l.covered;
  }

  length-recent-snoc :
      (at t : ℕ) (ts : List ℕ)
      → length (recent at window (ts ++ t ∷ []))
        ≡ length (recent at window ts) + length (recent at window (t ∷ []))
  unfolding recent retain
  length-recent-snoc at t [] = ground arith
  length-recent-snoc at t (u ∷ ts) = ground (arith, length-recent-snoc at t ts)

  IsCovered-more :
      (got log : Log) (key : Str) (t : ℕ) → IsCovered got log → IsCovered got (log ++ (key, t) ∷ [])
  IsCovered-more got log key t h at k =
      ground (
        arith,
        h at k,
        times_of-append window k key t log,
        length-recent-snoc at t (times_of k log),
      )

  IsCovered-both :
      (got log : Log) (key : Str) (t : ℕ)
      → IsCovered got log
      → IsCovered (got ++ (key, t) ∷ []) (log ++ (key, t) ∷ [])
  IsCovered-both got log key t h at k = ground (
    arith,
    h at k,
    times_of-append window k key t log,
    times_of-append window k key t got,
    length-recent-snoc at t (times_of k log),
    length-recent-snoc at t (times_of k got),
  )

  log_step-refuses :
      (key : Str) (now : ℕ) (log : Log)
      → (log_step limit window key now log).0 ≡ true
      → (log_step limit window key now log).1 ≡ log
  unfolding log_step
  log_step-refuses key now log h = ground arith

  log_step-admits :
      (key : Str) (now : ℕ) (log : Log)
      → (log_step limit window key now log).0 ≡ false
      → (log_step limit window key now log).1 ≡ log ++ (key, now) ∷ []
  unfolding log_step
  log_step-admits key now log h = ground arith

  module _ (key : Str) (now later : ℕ) (limits : Limits) (got : Log) (h : now ≤ later)
      (l : Ledger now limits got) where
    after : Limits
    after = (is_rate_limited key limit window later limits).1

    next_log : Log
    next_log = (log_step limit window key later l.log).1

    asked : (more : Log) → IsCovered more next_log → Ledger later after more
    unfolding after next_log
    asked more covered = record {
      log = next_log;
      refines = (is_rate_limited-log_step limit window key now later limits l.log h l.refines).1;
      within = log_step-IsWithinLimit limit window key now later l.log h l.within;
      covered = covered;
    }

    answer_of_log :
        (b : Bool)
        → (is_rate_limited key limit window later limits).0 ≡ b
        → (log_step limit window key later l.log).0 ≡ b
    answer_of_log b e =
        sym (is_rate_limited-log_step limit window key now later limits l.log h l.refines).0 ∙ e

    -- A refused request.
    pub Ledger-refused :
        (is_rate_limited key limit window later limits).0 ≡ true
        → Ledger later (is_rate_limited key limit window later limits).1 got
    unfolding after next_log
    Ledger-refused e = asked got (
        subst (IsCovered got) (sym (log_step-refuses key later l.log (answer_of_log true e)))
          l.covered)

    -- A request that is let through and not acted on.
    pub Ledger-idle :
        (is_rate_limited key limit window later limits).0 ≡ false
        → Ledger later (is_rate_limited key limit window later limits).1 got
    unfolding after next_log
    Ledger-idle e = asked got (
        subst (IsCovered got) (sym (log_step-admits key later l.log (answer_of_log false e)))
          (IsCovered-more got l.log key later l.covered))

    -- A request that is let through and acted on.
    pub Ledger-acted :
        (is_rate_limited key limit window later limits).0 ≡ false
        → Ledger later (is_rate_limited key limit window later limits).1 (got ++ (key, later) ∷ [])
    unfolding after next_log
    Ledger-acted e = asked (got ++ (key, later) ∷ []) (
        subst (IsCovered (got ++ (key, later) ∷ []))
          (sym (log_step-admits key later l.log (answer_of_log false e)))
          (IsCovered-both got l.log key later l.covered))

  pub Ledger-IsWithinLimit :
      (now : ℕ) (limits : Limits) (got : Log)
      → Ledger now limits got
      → (k : Str) → length (recent now window (times_of k got)) ≤ limit
  unfolding IsWithinLimit
  Ledger-IsWithinLimit now limits got l k = omega (arith, l.covered now k, l.within k)
