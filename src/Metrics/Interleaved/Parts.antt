-- ===== src/Metrics/Interleaved/Parts.antt =====
-- What each part of `record_request` of src/admin/store.rs adds to the counts.
use iron_babel.Base.{
  ℕ, ◌+◌, ◌≤◌, ◌≡◌, Bool, true, Option, none, some, List, [], ◌∷◌, arith, ◌==◌, if◌then◌else◌,
  length, length-append,
}
use iron_babel.Text.{Str}
use iron_babel.Metrics.{
  MetricsStore, Sample, is_some, is_error, count_status, count_matched, entry_of,
}
use iron_babel.Metrics.Counting.{requests_of, u64_max, requests_of-count_route}
use iron_babel.Metrics.Interleaved.{Part, Recording, perform}
use iron_babel.Metrics.Interleaved.Tally.{one_if, does}

abbrev pub any_sample : Sample → Bool
any_sample s = true

abbrev pub has_status : ℕ → Sample → Bool
has_status code s = s.status_code == code

abbrev pub is_routed : Sample → Bool
is_routed s = is_some s.matched_route

-- What the map counts of a status code.
abbrev pub count_at : ℕ → List (ℕ × ℕ) → ℕ
count_at code [] = 0
count_at code ((c, n) ∷ m) = (if c == code then n else 0) + count_at code m

count_at-count_status :
    (code status : ℕ) (m : List (ℕ × ℕ))
    → count_at code m + one_if (status == code) ≤ u64_max
    → count_at code (count_status status m) ≡ count_at code m + one_if (status == code)
unfolding count_status
count_at-count_status code status [] h = omega arith
count_at-count_status code status ((c, n) ∷ m) h =
    ground (arith, count_at-count_status code status m)

requests_of-matched :
    (failed : Bool) (latency : ℕ) (route : Option Str) (store : MetricsStore)
    → requests_of store.route_stats + one_if (is_some route) ≤ u64_max
    → requests_of (count_matched failed latency route store.route_stats)
      ≡ requests_of store.route_stats + one_if (is_some route)
unfolding count_matched is_some
requests_of-matched failed latency none store h = omega arith
requests_of-matched failed latency (some route) store h =
    omega (arith, requests_of-count_route failed latency route store.route_stats (omega arith))

module _ (s : Sample) (store : MetricsStore) (id now_ms : ℕ) where
  abbrev pub at_part : Part → Recording
  at_part part = record { id = id; timestamp_ms = now_ms; sample = s; part = part }

  pub perform-total_requests :
      (part : Part)
      → store.total_requests + does 0 any_sample part s ≤ u64_max
      → (perform part (at_part part) store).total_requests
        ≡ store.total_requests + does 0 any_sample part s
  unfolding perform
  perform-total_requests Part.total h = omega arith
  perform-total_requests _ h = omega arith

  pub perform-total_errors :
      (part : Part)
      → store.total_errors + does 1 is_error part s ≤ u64_max
      → (perform part (at_part part) store).total_errors
        ≡ store.total_errors + does 1 is_error part s
  unfolding perform
  perform-total_errors Part.error h = ground arith
  perform-total_errors _ h = ground arith

  pub perform-status :
      (code : ℕ) (part : Part)
      → count_at code store.status_code_counts + does 2 (has_status code) part s ≤ u64_max
      → count_at code (perform part (at_part part) store).status_code_counts
        ≡ count_at code store.status_code_counts + does 2 (has_status code) part s
  unfolding perform
  perform-status code Part.status h =
      count_at-count_status code s.status_code store.status_code_counts h
  perform-status code _ h = ground arith

  pub perform-routes :
      (part : Part)
      → requests_of store.route_stats + does 3 is_routed part s ≤ u64_max
      → requests_of (perform part (at_part part) store).route_stats
        ≡ requests_of store.route_stats + does 3 is_routed part s
  unfolding perform
  perform-routes Part.route h =
      requests_of-matched (is_error s) s.latency_ms s.matched_route store h
  perform-routes _ h = ground arith

  pub perform-sent :
      (part : Part)
      → length (perform part (at_part part) store).sent
        ≡ length store.sent + does 7 any_sample part s
  unfolding perform
  perform-sent Part.event = length-append store.sent (entry_of id now_ms s ∷ [])
  perform-sent _ = omega arith
