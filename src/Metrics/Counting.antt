-- ===== src/Metrics/Counting.antt =====
-- The totals of the store after a number of requests that 64 bits can count.
use iron_babel.Base.{
  ℕ, ◌+◌, ◌≤◌, ◌<◌, ◌≡◌, refl, Bool, Option, none, some, List, [], ◌∷◌, arith, All, ◌≢◌, ◌==◌,
  Bool-cases, inl, inr,
}
use iron_babel.Text.{Str}
use iron_babel.Metrics.{
  MetricsStore, RouteStats, Sample, new, record_request, tick, count_status, count_route,
  count_matched, bump_route, is_error,
}

-- The sum of a map's values.
abbrev pub sum_of : {K : Type 0} → List (K × ℕ) → ℕ
sum_of [] = 0
sum_of (e ∷ m) = e.1 + sum_of m

abbrev pub requests_of : List (Str × RouteStats) → ℕ
requests_of [] = 0
requests_of (e ∷ m) = e.1.total_requests + requests_of m

-- The stores after `n` requests, with ticks in between.
pub data Recorded : ℕ → MetricsStore → Type 0 where
  begins : Recorded 0 new
  records :
      {n : ℕ} {store : MetricsStore} (now_ms : ℕ) (s : Sample)
      → Recorded n store
      → Recorded (n + 1) (record_request now_ms s store)
  ticks :
      {n : ℕ} {store : MetricsStore} (now_secs : ℕ)
      → Recorded n store
      → Recorded n (tick now_secs store)

abbrev pub u64_max : ℕ
u64_max = 18446744073709551615

sum_of-count_status :
    (code : ℕ) (m : List (ℕ × ℕ)) → sum_of m < u64_max → sum_of (count_status code m) ≡ sum_of m + 1
unfolding count_status
sum_of-count_status code [] h = omega arith
sum_of-count_status code ((c, k) ∷ m) h = ground (arith, sum_of-count_status code m)

pub requests_of-count_route :
    (failed : Bool) (latency : ℕ) (route : Str) (m : List (Str × RouteStats))
    → requests_of m < u64_max
    → requests_of (count_route failed latency route m) ≡ requests_of m + 1
unfolding count_route bump_route
requests_of-count_route failed latency route [] h = omega arith
requests_of-count_route failed latency route ((r, s) ∷ m) h =
    ground (arith, requests_of-count_route failed latency route m)

requests_of-count_matched :
    (failed : Bool) (latency : ℕ) (route : Option Str) (m : List (Str × RouteStats))
    → requests_of m < u64_max
    → requests_of (count_matched failed latency route m) ≤ requests_of m + 1
unfolding count_matched
requests_of-count_matched failed latency none m h = omega arith
requests_of-count_matched failed latency (some route) m h =
    omega (arith, requests_of-count_route failed latency route m h)

-- The keys of a map differ from `k`, and from each other.
abbrev pub Lacks : {K : Type 0} → K → List (K × ℕ) → Type 0
Lacks k m = All (λ e. e.0 ≢ k) m

abbrev pub HasDistinct : {K : Type 0} → List (K × ℕ) → Type 0
HasDistinct [] = Unit
HasDistinct (e ∷ m) = Lacks e.0 m × HasDistinct m

count_status-Lacks :
    (code k : ℕ) (m : List (ℕ × ℕ)) → code ≢ k → Lacks k m → Lacks k (count_status code m)
unfolding count_status
count_status-Lacks code k [] other h = (other, tt)
count_status-Lacks code k ((c, n) ∷ m) other h = elim (Bool-cases (c == code)) [
  | inl same ↦ rw same (h.0, h.1)
  | inr differs ↦ rw differs (h.0, count_status-Lacks code k m other h.1)
]

count_status-HasDistinct :
    (code : ℕ) (m : List (ℕ × ℕ)) → HasDistinct m → HasDistinct (count_status code m)
unfolding count_status
count_status-HasDistinct code [] h = (tt, tt)
count_status-HasDistinct code ((c, n) ∷ m) h = elim (Bool-cases (c == code)) [
  | inl same ↦ rw same (h.0, h.1)
  | inr differs ↦ rw differs (
    count_status-Lacks code c m (λ e. ground (arith, differs, e)) h.0,
    count_status-HasDistinct code m h.1,
  )
]

-- The totals that a store keeps of `n` requests.
pub record HasTotals (n : ℕ) (store : MetricsStore) : Type 0 where
  pub counted : store.total_requests ≡ n
  pub by_status : sum_of store.status_code_counts ≡ n
  pub by_route : requests_of store.route_stats ≤ n
  pub errors : store.total_errors ≤ n
  pub distinct : HasDistinct store.status_code_counts

record_request-HasTotals :
    (n now_ms : ℕ) (s : Sample) (store : MetricsStore)
    → n < u64_max
    → HasTotals n store
    → HasTotals (n + 1) (record_request now_ms s store)
unfolding record_request
record_request-HasTotals n now_ms s store small h = record {
  counted = omega (arith, h.counted);
  by_status = omega (
    arith,
    sum_of-count_status s.status_code store.status_code_counts (omega (arith, h.by_status)),
    h.by_status,
  );
  by_route = omega (
    arith,
    requests_of-count_matched (is_error s) s.latency_ms s.matched_route store.route_stats
        (omega (arith, h.by_route)),
    h.by_route,
  );
  errors = ground (arith, h.errors);
  distinct = count_status-HasDistinct s.status_code store.status_code_counts h.distinct;
}

pub Recorded-HasTotals :
    (n : ℕ) (store : MetricsStore) → Recorded n store → n ≤ u64_max → HasTotals n store
unfolding new tick
Recorded-HasTotals _ _ begins small = record {
  counted = refl;
  by_status = refl;
  by_route = omega arith;
  errors = omega arith;
  distinct = tt;
}
Recorded-HasTotals _ _ (records {n = n} {store = store} now_ms s r) small =
    record_request-HasTotals n now_ms s store (omega arith)
      (Recorded-HasTotals n store r (omega arith))
Recorded-HasTotals _ _ (ticks {n = n} {store = store} now_secs r) small =
    let h = Recorded-HasTotals n store r small in
    record {
      counted = h.counted;
      by_status = h.by_status;
      by_route = h.by_route;
      errors = h.errors;
      distinct = h.distinct;
    }
