-- ===== src/Metrics/Interleaved/Tally.antt =====
-- A count of the store, the requests that have still to be counted, and all that were begun.
use iron_babel.Base.{
  ℕ, ◌+◌, ◌≤◌, ◌≡◌, Bool, List, [], ◌∷◌, ◌++◌, arith, leb, ◌==◌, if◌then◌else◌, length,
}
use iron_babel.Metrics.{MetricsStore, Sample, new, tick}
use iron_babel.Metrics.Counting.{u64_max}
use iron_babel.Metrics.Interleaved.{
  Part, Recording, following, begin, take_id, advance, perform, Interleaved, starts, begins,
  proceeds, ends, ticks,
}

-- How many parts come before this one.
abbrev pub rank : Part → ℕ
rank Part.total = 0
rank Part.error = 1
rank Part.status = 2
rank Part.route = 3
rank Part.bucket = 4
rank Part.latency = 5
rank Part.log = 6
rank Part.event = 7
rank Part.finished = 8

abbrev pub one_if : Bool → ℕ
one_if b = if b then 1 else 0

-- How many of the samples pass the test.
abbrev pub counted : (Sample → Bool) → List Sample → ℕ
counted p [] = 0
counted p (s ∷ samples) = one_if (p s) + counted p samples

pub counted-le : (p : Sample → Bool) (samples : List Sample) → counted p samples ≤ length samples
counted-le p [] = omega arith
counted-le p (s ∷ samples) = ground (arith, counted-le p samples)

module _ (k : ℕ) (p : Sample → Bool) where
  -- Whether a request has still to do the part of that rank, if its sample passes the test.
  unfoldable pub owes : Part → Sample → ℕ
  owes part s = if p s then one_if (leb (rank part) k) else 0

  -- Whether it does that part now.
  abbrev pub does : Part → Sample → ℕ
  does part s = if p s then one_if (rank part == k) else 0

  abbrev pub owed : List Recording → ℕ
  owed [] = 0
  owed (r ∷ going) = owes r.part r.sample + owed going

  owed-append : (xs ys : List Recording) → owed (xs ++ ys) ≡ owed xs + owed ys
  owed-append [] ys = omega arith
  owed-append (x ∷ xs) ys = omega (arith, owed-append xs ys)

  pub owed-le : (going : List Recording) → owed going ≤ length going
  unfolding owes
  owed-le [] = omega arith
  owed-le (r ∷ going) = ground (arith, owed-le going)

  module _ (low : k ≤ 7) where
    pub owes-following :
        (part : Part) (s : Sample) → owes (following part) s + does part s ≡ owes part s
    unfolding owes following
    owes-following Part.total s = ground arith
    owes-following Part.error s = ground arith
    owes-following Part.status s = ground arith
    owes-following Part.route s = ground arith
    owes-following Part.bucket s = ground arith
    owes-following Part.latency s = ground arith
    owes-following Part.log s = ground arith
    owes-following Part.event s = ground arith
    owes-following Part.finished s = ground arith

    owed-advance :
        (before after : List Recording) (r : Recording)
        → owed (before ++ advance r ∷ after) + does r.part r.sample ≡ owed (before ++ r ∷ after)
    unfolding advance
    owed-advance before after r = omega (
      arith,
      owed-append before (r ∷ after),
      owed-append before (advance r ∷ after),
      owes-following r.part r.sample,
    )

    pub owes-finished : (part : Part) (s : Sample) → part ≡ Part.finished → owes part s ≡ 0
    unfolding owes
    owes-finished part s e = rw e (ground arith)

    pub owes-total : (s : Sample) → owes Part.total s ≡ one_if (p s)
    unfolding owes
    owes-total s = ground arith

    -- The requests that are being recorded are among those that were begun.
    pub Interleaved-owed :
        (samples : List Sample) (going : List Recording) (store : MetricsStore)
        → Interleaved samples going store
        → owed going ≤ counted p samples
    unfolding begin
    Interleaved-owed _ _ _ starts = omega arith
    Interleaved-owed _ _ _
          (begins {samples = samples} {going = going} {store = store} now_ms s run) =
        omega (arith, Interleaved-owed samples going store run, owes-total s)
    Interleaved-owed _ _ _ (proceeds {samples = samples} {store = store} before after r run) =
        omega (
          arith,
          Interleaved-owed samples (before ++ r ∷ after) store run,
          owed-advance before after r,
        )
    Interleaved-owed _ _ _ (ends {samples = samples} {store = store} before after r over run) =
        omega (
          arith,
          Interleaved-owed samples (before ++ r ∷ after) store run,
          owed-append before (r ∷ after),
          owed-append before after,
        )
    Interleaved-owed _ _ _
          (ticks {samples = samples} {going = going} {store = store} now_secs run) =
        Interleaved-owed samples going store run

    -- A count that grows by one with that part, and with nothing else.
    module _ (count : MetricsStore → ℕ) (empty : count new ≡ 0)
        (with_id : (store : MetricsStore) → count (take_id store) ≡ count store)
        (ticked : (now_secs : ℕ) (store : MetricsStore) → count (tick now_secs store) ≡ count store)
        (grows : (r : Recording) (store : MetricsStore)
          → count store + does r.part r.sample ≤ u64_max
          → count (perform r.part r store) ≡ count store + does r.part r.sample) where
      pub Interleaved-counted :
          (samples : List Sample) (going : List Recording) (store : MetricsStore)
          → Interleaved samples going store
          → length samples ≤ u64_max
          → count store + owed going ≡ counted p samples
      unfolding begin
      Interleaved-counted _ _ _ starts small = omega (arith, empty)
      Interleaved-counted _ _ _
            (begins {samples = samples} {going = going} {store = store} now_ms s run) small =
          let before = Interleaved-counted samples going store run (omega arith) in
          let same = with_id store in omega (arith, before, same, owes-total s)
      Interleaved-counted _ _ _ (proceeds {samples = samples} {store = store} before after r run)
            small =
          let h = Interleaved-counted samples (before ++ r ∷ after) store run small in
          let moved = owed-advance before after r in
          let fits = counted-le p samples in let grown = grows r store (omega arith) in omega arith
      Interleaved-counted _ _ _ (ends {samples = samples} {store = store} before after r over run)
            small =
          let h = Interleaved-counted samples (before ++ r ∷ after) store run small in
          omega (
            arith,
            h,
            owed-append before (r ∷ after),
            owed-append before after,
            owes-finished r.part r.sample over,
          )
      Interleaved-counted _ _ _
            (ticks {samples = samples} {going = going} {store = store} now_secs run) small =
          let h = Interleaved-counted samples going store run small in
          omega (arith, h, ticked now_secs store)
