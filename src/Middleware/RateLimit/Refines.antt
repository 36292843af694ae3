-- ===== src/Middleware/RateLimit/Refines.antt =====
-- The map of timestamps of src/core/middleware/rate_limit.rs beside a log of all admitted requests.
pub mod Admission
use mathlib.Core.List.{append_assoc, append-nil}
use iron_babel.Base.{
  ℕ, ◌≤◌, ◌≡◌, refl, sym, ap, ap₂, ◌∙◌, Bool, true, false, not, ◌&&◌, List, [], ◌∷◌, ◌++◌, arith,
  leb, if◌then◌else◌, length, inl, inr, Bool-cases, length-append,
}
use iron_babel.Text.{Str}
use iron_babel.Text.Laws.{str_eq_iff}
use iron_babel.Json.{HasDistinctKeys}
use iron_babel.Middleware.RateLimit.{
  Limits, max_tracked_clients, timestamps_of, contains_key, put, recent, make_room, is_rate_limited,
}
use iron_babel.Middleware.RateLimit.Window.{
  Log, times_of, recent-recent, recent-append, length-recent_le, timestamps_of-put, times_of-append,
  put-HasDistinctKeys, evict-HasDistinctKeys, recent-evict, recent_nil,
}

module _ (limit window : ℕ) where
  -- The specification: a request is refused when its client has as many as `limit` admitted
  -- requests in the log that are no older than the window, and is logged otherwise.
  pub log_step : Str → ℕ → Log → Bool × Log
  log_step key now log =
      if leb limit (length (recent now window (times_of key log)))
      then (true, log)
      else (false, log ++ (key, now) ∷ [])

  pub record Refines (now : ℕ) (limits : Limits) (log : Log) : Type 0 where
    pub distinct : HasDistinctKeys limits
    pub same :
        (k : Str) → recent now window (timestamps_of k limits) ≡ recent now window (times_of k log)

  same_later :
      (now later : ℕ) (ts us : List ℕ)
      → now ≤ later
      → recent now window ts ≡ recent now window us
      → recent later window ts ≡ recent later window us
  same_later now later ts us h e =
      sym (recent-recent window now later ts h)
      ∙ (ap (recent later window) e ∙ recent-recent window now later us h)

  Refines-later :
      {now later : ℕ} {limits : Limits} {log : Log}
      → now ≤ later
      → Refines now limits log
      → Refines later limits log
  Refines-later {now} {later} {limits} {log} h r = record {
    distinct = r.distinct;
    same = λ k. same_later now later (timestamps_of k limits) (times_of k log) h (r.same k);
  }

  make_room-Refines :
      {now : ℕ} {limits : Limits} {log : Log} (key : Str)
      → Refines now limits log
      → Refines now (make_room now window key limits) log
  unfolding make_room
  make_room-Refines {now} {limits} {log} key r =
      elim (Bool-cases (not (contains_key key limits) && leb max_tracked_clients (length limits))) [
        | inl full ↦ rw full (record {
          distinct = evict-HasDistinctKeys window now limits r.distinct;
          same = λ k. recent-evict window k now limits r.distinct ∙ r.same k;
        })
        | inr room ↦ rw room r
      ]

  -- Writing back a client's recent requests changes nothing that matters.
  put-Refines :
      {now : ℕ} {limits : Limits} {log : Log} (key : Str)
      → Refines now limits log
      → Refines now (put key (recent now window (timestamps_of key limits)) limits) log
  put-Refines {now} {limits} {log} key r = record {
    distinct = put-HasDistinctKeys window key _ limits r.distinct;
    same = λ k. ground (
      arith,
      timestamps_of-put window k key (recent now window (timestamps_of key limits)) limits,
      recent-recent window now now (timestamps_of key limits),
      r.same k,
      str_eq_iff key k,
    );
  }

  put_now-Refines :
      {now : ℕ} {limits : Limits} {log : Log} (key : Str)
      → Refines now limits log
      → Refines now
          (put key (recent now window (timestamps_of key limits) ++ now ∷ []) limits)
          (log ++ (key, now) ∷ [])
  put_now-Refines {now} {limits} {log} key r = record {
    distinct = put-HasDistinctKeys window key _ limits r.distinct;
    same = λ k. ground (
      arith,
      timestamps_of-put window k key (recent now window (timestamps_of key limits) ++ now ∷ [])
          limits,
      times_of-append window k key now log,
      recent-append window now (recent now window (timestamps_of key limits)),
      recent-append window now (times_of k log),
      recent-recent window now now (timestamps_of key limits),
      r.same k,
      str_eq_iff key k,
    );
  }

  -- Answer by answer the map and the log agree, as long as the clock does not run backwards.
  pub is_rate_limited-log_step :
      (key : Str) (now later : ℕ) (limits : Limits) (log : Log)
      → now ≤ later
      → Refines now limits log
      → ((is_rate_limited key limit window later limits).0 ≡ (log_step key later log).0)
        × Refines later (is_rate_limited key limit window later limits).1 (log_step key later log).1
  unfolding is_rate_limited log_step
  is_rate_limited-log_step key now later limits log h r =
      let room : Limits = make_room later window key limits in
      let r' = make_room-Refines key (Refines-later h r) in
      elim (Bool-cases (leb limit (length (recent later window (times_of key log))))) [
        | inl over ↦
            let over' : leb limit (length (recent later window (timestamps_of key room))) ≡ true =
              rw (r'.same key) over in
            rw (over, over') (refl, put-Refines key r')
        | inr under ↦
            let under' : leb limit (length (recent later window (timestamps_of key room))) ≡ false =
              rw (r'.same key) under in
            rw (under, under') (refl, put_now-Refines key r')
      ]

  -- No window holds more admitted requests of one client than the limit.
  pub IsWithinLimit : ℕ → Log → Type 0
  IsWithinLimit now log = (k : Str) → length (recent now window (times_of k log)) ≤ limit

  log_step-IsWithinLimit :
      (key : Str) (now later : ℕ) (log : Log)
      → now ≤ later
      → IsWithinLimit now log
      → IsWithinLimit later (log_step key later log).1
  unfolding log_step IsWithinLimit
  log_step-IsWithinLimit key now later log h w k = ground (
    arith,
    w k,
    length-recent_le window now later (times_of k log) h,
    times_of-append window k key later log,
    recent-append window later (times_of k log),
    length-append (recent later window (times_of k log)) (later ∷ []),
    str_eq_iff key k,
    ap (λ (i : Str). length (recent later window (times_of i log))) {x = key} {y = k},
  )

  -- A run of requests of the given clients at the given times: the answers and the map.
  unfoldable pub run : Limits → List (Str × ℕ) → List Bool × Limits
  run limits [] = ([], limits)
  run limits ((key, now) ∷ rest) =
      let (limited, limits') = is_rate_limited key limit window now limits in
      let (answers, end) = run limits' rest in (limited ∷ answers, end)

  pub log_run : Log → List (Str × ℕ) → List Bool × Log
  log_run log [] = ([], log)
  log_run log ((key, now) ∷ rest) =
      let (limited, log') = log_step key now log in
      let (answers, end) = log_run log' rest in (limited ∷ answers, end)

  -- The times never fall, beginning at `now`.
  abbrev pub IsAscending : ℕ → List (Str × ℕ) → Type 0
  IsAscending now [] = Unit
  IsAscending now ((key, t) ∷ rest) = (now ≤ t) × IsAscending t rest

  run-Refines :
      (now : ℕ) (limits : Limits) (log : Log) (requests : List (Str × ℕ))
      → IsAscending now requests
      → Refines now limits log
      → (run limits requests).0 ≡ (log_run log requests).0
  unfolding run log_run
  run-Refines now limits log [] h r = refl
  run-Refines now limits log ((key, t) ∷ rest) h r =
      let (same, r') = is_rate_limited-log_step key now t limits log h.0 r in
      ap₂ ◌∷◌ same (
        run-Refines t (is_rate_limited key limit window t limits).1 (log_step key t log).1 rest h.1
          r')

  -- The time of the last request.
  abbrev pub last_time : ℕ → List (Str × ℕ) → ℕ
  last_time now [] = now
  last_time now ((key, t) ∷ rest) = last_time t rest

  log_run-IsWithinLimit :
      (now : ℕ) (log : Log) (requests : List (Str × ℕ))
      → IsAscending now requests
      → IsWithinLimit now log
      → IsWithinLimit (last_time now requests) (log_run log requests).1
  unfolding log_run
  log_run-IsWithinLimit now log [] h w = w
  log_run-IsWithinLimit now log ((key, t) ∷ rest) h w =
      log_run-IsWithinLimit t (log_step key t log).1 rest h.1
        (log_step-IsWithinLimit key now t log h.0 w)

  -- The requests that were let through, by their answers.
  pub admitted : List (Str × ℕ) → List Bool → Log
  admitted (r ∷ rest) (false ∷ answers) = r ∷ admitted rest answers
  admitted (r ∷ rest) (true ∷ answers) = admitted rest answers
  admitted _ _ = []

  log_run-admitted :
      (log : Log) (requests : List (Str × ℕ))
      → (log_run log requests).1 ≡ log ++ admitted requests (log_run log requests).0
  unfolding log_run admitted log_step
  log_run-admitted log [] = sym (append-nil log)
  log_run-admitted log ((key, t) ∷ rest) =
      elim (Bool-cases (leb limit (length (recent t window (times_of key log))))) [
        | inl over ↦ rw over (log_run-admitted log rest)
        | inr under ↦
            rw under
              (log_run-admitted (log ++ (key, t) ∷ []) rest ∙ append_assoc log ((key, t) ∷ []) _)
      ]

  -- From the empty map, for requests at times that never fall, every answer is that of the log that
  -- forgets nothing.
  pub run-eq-log_run :
      (requests : List (Str × ℕ))
      → IsAscending 0 requests
      → (run [] requests).0 ≡ (log_run [] requests).0
  unfolding timestamps_of times_of
  run-eq-log_run requests h =
      run-Refines 0 [] [] requests h (record { distinct = tt; same = λ k. refl })

  nothing_admitted : (j : Str) → length (recent 0 window (times_of j [])) ≤ limit
  unfolding times_of
  nothing_admitted j = rw (recent_nil window 0) (omega arith)

  -- However the requests come, as long as the clock does not run backwards, the window that ends
  -- with the last of them holds at most `limit` admitted requests of each client.
  pub run-IsWithinLimit :
      (requests : List (Str × ℕ))
      → IsAscending 0 requests
      → (k : Str)
      → length (
          recent (last_time 0 requests) window (times_of k (admitted requests (run [] requests).0)))
        ≤ limit
  unfolding IsWithinLimit
  run-IsWithinLimit requests h k =
      rw (run-eq-log_run requests h, ← (log_run-admitted [] requests))
        (log_run-IsWithinLimit 0 [] requests h (λ j. nothing_admitted j) k)
