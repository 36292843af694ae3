-- ===== src/Metrics/Rates.antt =====
-- What the store reports: the recent requests, the rate's window and the latency percentiles.
pub mod Percentiles
use Prim.Native.Nat.{max}
use iron_babel.Base.{
  ℕ, ◌+◌, ◌-◌, ◌<◌, ◌≤◌, ◌≡◌, refl, ap, Bool, true, false, ◌&&◌, Option, none, some, List, [], ◌∷◌,
  ◌++◌, arith, leb, ltb, ◌==◌, if◌then◌else◌, length, get_or, take, retain, map, In, min, inl, inr,
  Bool-cases, ◌⊎◌,
}
use iron_babel.Metrics.{MetricsStore, TimeBucket, RequestLogEntry, add_u64}

reverse_onto : List RequestLogEntry → List RequestLogEntry → List RequestLogEntry
reverse_onto [] acc = acc
reverse_onto (x ∷ xs) acc = reverse_onto xs (x ∷ acc)

unfoldable pub recent_requests : MetricsStore → ℕ → List RequestLogEntry
unfolding reverse_onto
recent_requests store n = take n (reverse_onto store.request_log [])

unfoldable pub sum_u64 : List ℕ → ℕ
sum_u64 [] = 0
sum_u64 (n ∷ ns) = add_u64 n (sum_u64 ns)

in_window : ℕ → ℕ → TimeBucket → Bool
in_window oldest now_secs b = leb oldest b.timestamp_secs && leb b.timestamp_secs now_secs

window_test :
    (now_secs window : ℕ) (b : TimeBucket)
    → 0 < window
    → in_window (now_secs - (window - 1)) now_secs b
      ≡ (ltb now_secs (b.timestamp_secs + window) && leb b.timestamp_secs now_secs)
unfolding in_window
window_test now_secs window b pos = ground arith

retain-cong :
    (p q : TimeBucket → Bool)
    → ((b : TimeBucket) → p b ≡ q b)
    → (bs : List TimeBucket) → retain p bs ≡ retain q bs
unfolding retain
retain-cong p q h [] = refl
retain-cong p q h (b ∷ bs) = rw (h b, retain-cong p q h bs) refl

unfoldable pub count_in_window : List TimeBucket → ℕ → ℕ → ℕ
unfolding sum_u64 in_window
count_in_window buckets now_secs window =
    sum_u64
      (map (λ b. b.request_count) (retain (in_window (now_secs - (window - 1)) now_secs) buckets))

-- The rate as a fraction: the count and what the code divides it by.
unfoldable pub compute_rps : MetricsStore → ℕ → ℕ → ℕ × ℕ
compute_rps store now_secs uptime_secs =
    (count_in_window store.time_buckets now_secs 5, max (min 5 (max uptime_secs 1)) 1)

-- `sort_unstable`
unfoldable pub insert : ℕ → List ℕ → List ℕ
insert x [] = x ∷ []
insert x (y ∷ ys) = let rest = insert x ys in if leb x y then x ∷ y ∷ ys else y ∷ rest

unfoldable pub sort : List ℕ → List ℕ
sort [] = []
sort (x ∷ xs) = insert x (sort xs)

-- `ceil_rank p n` is `((p / 100.0) * n as f64).ceil() as usize`.
module _ (ceil_rank : ℕ → ℕ → ℕ) where
  unfoldable pub percentile : List ℕ → ℕ → ℕ
  percentile [] p = 0
  percentile (x ∷ xs) p =
      get_or (x ∷ xs) (min (ceil_rank p (length (x ∷ xs)) - 1) (length (x ∷ xs) - 1)) x

  unfoldable pub get_percentiles : MetricsStore → ℕ × ℕ × ℕ
  get_percentiles store =
      let sorted = sort store.recent_latencies in
      (percentile sorted 50, percentile sorted 95, percentile sorted 99)

-- The count covers exactly the `window` seconds that end with this one.
count_in_window-eq :
    (buckets : List TimeBucket) (now_secs window : ℕ)
    → 0 < window
    → count_in_window buckets now_secs window
      ≡ sum_u64 (
          map
            (λ b. b.request_count)
            (retain
              (λ b. ltb now_secs (b.timestamp_secs + window) && leb b.timestamp_secs now_secs)
              buckets))
unfolding count_in_window
count_in_window-eq buckets now_secs window pos =
    ap (λ bs. sum_u64 (map (λ b. b.request_count) bs))
      (retain-cong _ _ (λ b. window_test now_secs window b pos) buckets)
