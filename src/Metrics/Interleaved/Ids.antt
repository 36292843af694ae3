-- ===== src/Metrics/Interleaved/Ids.antt =====
-- The ids of the entries while requests are recorded at the same time.
use iron_babel.Base.{
  ℕ, ◌+◌, ◌≤◌, ◌≡◌, ◌∙◌, ◌%◌, refl, ◌&&◌, List, [], ◌∷◌, ◌++◌, arith, leb, ◌==◌, length,
}
use iron_babel.Metrics.{MetricsStore, RequestLogEntry, Sample, new, entry_of, tick}
use iron_babel.Metrics.Counting.{u64_max}
use iron_babel.Metrics.Interleaved.{
  Part, Recording, begin, take_id, advance, perform, Interleaved, starts, begins, proceeds, ends,
  ticks,
}
use iron_babel.Metrics.Interleaved.Tally.{
  one_if, does, owes, owes-following, owes-finished, owes-total,
}

perform-next_id :
    (part : Part) (r : Recording) (store : MetricsStore)
    → (perform part r store).next_id ≡ store.next_id
unfolding perform
perform-next_id Part.total r store = refl
perform-next_id _ r store = refl

next_id_lem :
    (samples : List Sample) (going : List Recording) (store : MetricsStore)
    → Interleaved samples going store
    → store.next_id ≡ (length samples + 1) % 18446744073709551616
unfolding new take_id tick
next_id_lem _ _ _ starts = refl
next_id_lem _ _ _ (begins {samples = samples} {going = going} {store = store} now_ms s run) =
    omega (arith, next_id_lem samples going store run)
next_id_lem _ _ _ (proceeds {samples = samples} {store = store} before after r run) =
    perform-next_id r.part r store ∙ next_id_lem samples (before ++ r ∷ after) store run
next_id_lem _ _ _ (ends {samples = samples} {store = store} before after r over run) =
    next_id_lem samples (before ++ r ∷ after) store run
next_id_lem _ _ _ (ticks {samples = samples} {going = going} {store = store} now_secs run) =
    next_id_lem samples going store run

-- How many of the entries have the id.
abbrev pub having : ℕ → List RequestLogEntry → ℕ
having id [] = 0
having id (e ∷ entries) = one_if (e.id == id) + having id entries

having-append :
    (id : ℕ) (xs ys : List RequestLogEntry) → having id (xs ++ ys) ≡ having id xs + having id ys
having-append id [] ys = omega arith
having-append id (x ∷ xs) ys = omega (arith, having-append id xs ys)

module _ (id : ℕ) where
  -- Whether the recording has the id, and has still to send its entry.
  unsent_one : Recording → ℕ
  unsent_one r = owes 7 (λ s. r.id == id) r.part r.sample

  unsent : List Recording → ℕ
  unsent [] = 0
  unsent (r ∷ going) = unsent_one r + unsent going

  unsent-append : (xs ys : List Recording) → unsent (xs ++ ys) ≡ unsent xs + unsent ys
  unfolding unsent
  unsent-append [] ys = omega arith
  unsent-append (x ∷ xs) ys = omega (arith, unsent-append xs ys)

  unsent-middle :
      (before after : List Recording) (r : Recording)
      → unsent (before ++ r ∷ after) ≡ unsent before + unsent_one r + unsent after
  unfolding unsent
  unsent-middle before after r = omega (arith, unsent-append before (r ∷ after))

  perform-having :
      (part : Part) (r : Recording) (store : MetricsStore)
      → having id (perform part r store).sent
        ≡ having id store.sent + does 7 (λ s. r.id == id) part r.sample
  unfolding perform entry_of
  perform-having Part.event r store =
      omega (arith, having-append id store.sent (entry_of r.id r.timestamp_ms r.sample ∷ []))
  perform-having _ r store = ground arith

  -- Each id from 1 to the number of requests is sent with one entry, or will be; no other is.
  Interleaved-having :
      (samples : List Sample) (going : List Recording) (store : MetricsStore)
      → Interleaved samples going store
      → length samples ≤ u64_max
      → having id store.sent + unsent going ≡ one_if (leb 1 id && leb id (length samples))
  unfolding new take_id tick begin advance unsent unsent_one
  Interleaved-having _ _ _ starts small = ground arith
  Interleaved-having _ _ _ (begins {samples = samples} {going = going} {store = store} now_ms s run)
        small =
      let h = Interleaved-having samples going store run (omega arith) in
      let next = next_id_lem samples going store run in
      let fresh : store.next_id ≡ length samples + 1 = omega arith in
      let owing = owes-total 7 (λ t. store.next_id == id) (omega arith) s in
      ground (arith, h, fresh, owing)
  Interleaved-having _ _ _ (proceeds {samples = samples} {store = store} before after r run) small =
      omega (
        arith,
        Interleaved-having samples (before ++ r ∷ after) store run small,
        unsent-middle before after r,
        unsent-middle before after (advance r),
        perform-having r.part r store,
        owes-following 7 (λ t. r.id == id) (omega arith) r.part r.sample,
      )
  Interleaved-having _ _ _ (ends {samples = samples} {store = store} before after r over run)
        small =
      omega (
        arith,
        Interleaved-having samples (before ++ r ∷ after) store run small,
        unsent-middle before after r,
        unsent-append before after,
        owes-finished 7 (λ t. r.id == id) (omega arith) r.part r.sample over,
      )
  Interleaved-having _ _ _ (ticks {samples = samples} {going = going} {store = store} now_secs run)
        small =
      Interleaved-having samples going store run small

  -- No two entries that are sent have the same id, and each has one from 1 to the number of requests.
  pub Interleaved-having-le :
      (samples : List Sample) (going : List Recording) (store : MetricsStore)
      → Interleaved samples going store
      → length samples ≤ u64_max
      → having id store.sent ≤ one_if (leb 1 id && leb id (length samples))
  Interleaved-having-le samples going store run small =
      omega (arith, Interleaved-having samples going store run small)
