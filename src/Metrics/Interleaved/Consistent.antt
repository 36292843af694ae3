-- ===== src/Metrics/Interleaved/Consistent.antt =====
-- No update is lost when requests are recorded at the same time.
use iron_babel.Base.{
  ℕ, ◌+◌, ◌≤◌, ◌≡◌, refl, subst, Bool, not, ◌&&◌, leb, List, [], ◌∷◌, arith, length,
}
use iron_babel.Metrics.{MetricsStore, Sample, new, is_error, tick}
use iron_babel.Metrics.Counting.{requests_of, u64_max}
use iron_babel.Metrics.Interleaved.{Recording, take_id, Interleaved}
use iron_babel.Metrics.Interleaved.Ids.{having, Interleaved-having-le}
use iron_babel.Metrics.Interleaved.Parts.{
  any_sample, has_status, is_routed, count_at, perform-total_requests, perform-total_errors,
  perform-status, perform-routes, perform-sent,
}
use iron_babel.Metrics.Interleaved.Tally.{
  one_if, counted, owes, owed, owed-le, Interleaved-owed, Interleaved-counted,
}

-- The count is at most the total, and behind it by at most the requests that are being recorded.
abbrev pub IsBehind : ℕ → ℕ → List Recording → Type 0
IsBehind count total going = (count ≤ total) × (total ≤ count + length going)

-- The counts of a store beside the samples that were begun.
pub record IsConsistent (samples : List Sample) (going : List Recording) (store : MetricsStore)
    : Type 0 where
  pub requests : IsBehind store.total_requests (length samples) going
  pub errors : IsBehind store.total_errors (counted is_error samples) going
  pub statuses :
      (code : ℕ)
      → IsBehind (count_at code store.status_code_counts) (counted (has_status code) samples) going
  pub routes : IsBehind (requests_of store.route_stats) (counted is_routed samples) going
  pub told : IsBehind (length store.sent) (length samples) going
  pub errors_below : store.total_errors ≤ store.total_requests
  pub ids : (id : ℕ) → having id store.sent ≤ one_if (leb 1 id && leb id (length samples))

counted-any_sample : (samples : List Sample) → counted any_sample samples ≡ length samples
counted-any_sample [] = refl
counted-any_sample (s ∷ samples) = omega (arith, counted-any_sample samples)

-- What is counted and what is owed make the total, so the count is behind.
behind :
    (k : ℕ) (p : Sample → Bool) (count : ℕ) (samples : List Sample) (going : List Recording)
    → count + owed k p going ≡ counted p samples
    → IsBehind count (counted p samples) going
behind k p count samples going e = (omega (arith, e), omega (arith, e, owed-le k p going))

is_fine : Sample → Bool
is_fine s = not (is_error s)

counted-split :
    (samples : List Sample) → counted is_error samples + counted is_fine samples ≡ length samples
unfolding is_fine
counted-split [] = omega arith
counted-split (s ∷ samples) = ground (arith, counted-split samples)

-- A request that has not counted itself has not counted its error either.
owed-split :
    (going : List Recording)
    → owed 0 any_sample going ≤ owed 1 is_error going + owed 0 is_fine going
unfolding owes is_fine
owed-split [] = omega arith
owed-split (r ∷ going) = ground (arith, owed-split going)

module _ (samples : List Sample) (going : List Recording) (store : MetricsStore)
    (run : Interleaved samples going store) (small : length samples ≤ u64_max) where
  total_requests_lem : store.total_requests + owed 0 any_sample going ≡ counted any_sample samples
  unfolding new take_id tick
  total_requests_lem =
      Interleaved-counted 0 any_sample (omega arith) (λ st. st.total_requests) refl (λ st. refl)
        (λ n st. refl) (λ r st. perform-total_requests r.sample st r.id r.timestamp_ms r.part)
        samples going store run small

  total_errors_lem : store.total_errors + owed 1 is_error going ≡ counted is_error samples
  unfolding new take_id tick
  total_errors_lem =
      Interleaved-counted 1 is_error (omega arith) (λ st. st.total_errors) refl (λ st. refl)
        (λ n st. refl) (λ r st. perform-total_errors r.sample st r.id r.timestamp_ms r.part) samples
        going store run small

  status_lem :
      (code : ℕ)
      → count_at code store.status_code_counts + owed 2 (has_status code) going
        ≡ counted (has_status code) samples
  unfolding new take_id tick
  status_lem code =
      Interleaved-counted 2 (has_status code) (omega arith)
        (λ st. count_at code st.status_code_counts) refl (λ st. refl) (λ n st. refl)
        (λ r st. perform-status r.sample st r.id r.timestamp_ms code r.part) samples going store run
        small

  routes_lem : requests_of store.route_stats + owed 3 is_routed going ≡ counted is_routed samples
  unfolding new take_id tick
  routes_lem =
      Interleaved-counted 3 is_routed (omega arith) (λ st. requests_of st.route_stats) refl
        (λ st. refl) (λ n st. refl) (λ r st. perform-routes r.sample st r.id r.timestamp_ms r.part)
        samples going store run small

  sent_lem : length store.sent + owed 7 any_sample going ≡ counted any_sample samples
  unfolding new take_id tick
  sent_lem =
      Interleaved-counted 7 any_sample (omega arith) (λ st. length st.sent) refl (λ st. refl)
        (λ n st. refl) (λ r st h. perform-sent r.sample st r.id r.timestamp_ms r.part) samples going
        store run small

-- However the parts of concurrent requests and the ticks of the clock follow each other, while 64
-- bits can count the requests that were begun: the total, the errors, the count of each status code,
-- the counts of the routes together and the entries sent to the subscribers are at most what those
-- requests make, and behind it by at most the number of requests that are still being recorded, so
-- that they agree when there is none; the errors are at most the total; and no two entries that are
-- sent have the same id, each having one from 1 to the number of requests that were begun.
pub Interleaved-IsConsistent :
    (samples : List Sample) (going : List Recording) (store : MetricsStore)
    → Interleaved samples going store
    → length samples ≤ u64_max
    → IsConsistent samples going store
Interleaved-IsConsistent samples going store run small =
    let all = counted-any_sample samples in
    let requests = total_requests_lem samples going store run small in
    let errors = total_errors_lem samples going store run small in
    record {
      requests =
          subst (λ n. IsBehind store.total_requests n going) all
            (behind 0 any_sample store.total_requests samples going requests);
      errors = behind 1 is_error store.total_errors samples going errors;
      statuses = λ code.
          behind 2 (has_status code) (count_at code store.status_code_counts) samples going
            (status_lem samples going store run small code);
      routes =
          behind 3 is_routed (requests_of store.route_stats) samples going
            (routes_lem samples going store run small);
      told =
          subst (λ n. IsBehind (length store.sent) n going) all
            (behind 7 any_sample (length store.sent) samples going
              (sent_lem samples going store run small));
      errors_below = omega (
        arith,
        all,
        requests,
        errors,
        counted-split samples,
        owed-split going,
        Interleaved-owed 0 is_fine (omega arith) samples going store run,
      );
      ids = λ id. Interleaved-having-le id samples going store run small;
    }
