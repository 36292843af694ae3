-- ===== src/Metrics/Bounded.antt =====
-- The stores that the gateway reaches from the empty one, and how much they hold.
use iron_babel.Base.{
  ℕ, ◌<◌, ◌≤◌, ◌≡◌, refl, Bool, none, List, [], ◌∷◌, arith, leb, ◌==◌, length, drop, length-append,
  length-drop, Bool-cases, inl, inr, Option-cases,
}
use iron_babel.Metrics.{
  MetricsStore, TimeBucket, Sample, new, record_request, tick, tick_buckets, count_bucket, trim,
  back, set_back, push_capped, ring_buffer_cap, bucket_count, latency_buffer_cap, is_new_second,
}

length-trim : (bs : List TimeBucket) → length (trim bs) ≤ bucket_count
unfolding trim
length-trim [] = omega arith
length-trim (b ∷ bs) = ground (arith, length-trim bs)

length-set_back : (b : TimeBucket) (bs : List TimeBucket) → length (set_back b bs) ≡ length bs
unfolding set_back
length-set_back b [] = refl
length-set_back b (_ ∷ []) = refl
length-set_back b (_ ∷ c ∷ bs) = omega (arith, length-set_back b (c ∷ bs))

back-eq-none : (bs : List TimeBucket) → back bs ≡ none → bs ≡ []
unfolding back
back-eq-none [] h = refl
back-eq-none (b ∷ []) h = cc
back-eq-none (_ ∷ c ∷ bs) h = cc (back-eq-none (c ∷ bs) h)

pub length-count_bucket :
    (failed : Bool) (latency now : ℕ) (bs : List TimeBucket)
    → length bs ≤ bucket_count
    → length (count_bucket failed latency now bs) ≤ bucket_count
unfolding count_bucket
length-count_bucket failed latency now bs h = elim (Option-cases (back bs)) [
  | inl e ↦ rw (e, count_bucket) (rw (back-eq-none bs e) (omega arith))
  | inr (b, e) ↦
      rw (e, count_bucket)
        (elim (Bool-cases (b.timestamp_secs == now)) [
          | inl same ↦ rw same (omega (arith, length-set_back _ bs))
          | inr other ↦ rw other (length-trim _)
        ])
]

length-tick_buckets :
    (now : ℕ) (bs : List TimeBucket)
    → length bs ≤ bucket_count
    → length (tick_buckets now bs) ≤ bucket_count
unfolding tick_buckets
length-tick_buckets now bs h = elim (Bool-cases (is_new_second now (back bs))) [
  | inl yes_new ↦ rw yes_new (length-trim _)
  | inr old ↦ rw old h
]

pub length-push_capped {ℓ} :
    {A : Type ℓ} (cap : ℕ) (x : A) (xs : List A)
    → 0 < cap
    → length xs ≤ cap
    → length (push_capped cap x xs) ≤ cap
unfolding push_capped
length-push_capped cap x xs pos h = elim (Bool-cases (leb cap (length xs))) [
  | inl full ↦ rw full (omega (arith, length-append (drop 1 xs) (x ∷ []), length-drop 1 xs))
  | inr room ↦ rw room (ground (arith, length-append xs (x ∷ [])))
]

pub record IsBounded (store : MetricsStore) : Type 0 where
  pub log : length store.request_log ≤ ring_buffer_cap
  pub buckets : length store.time_buckets ≤ bucket_count
  pub latencies : length store.recent_latencies ≤ latency_buffer_cap

record_request-IsBounded :
    (now_ms : ℕ) (s : Sample) (store : MetricsStore)
    → IsBounded store
    → IsBounded (record_request now_ms s store)
unfolding record_request
record_request-IsBounded now_ms s store h = record {
  log = length-push_capped ring_buffer_cap _ store.request_log (omega arith) h.log;
  buckets = length-count_bucket _ _ _ store.time_buckets h.buckets;
  latencies =
      length-push_capped latency_buffer_cap _ store.recent_latencies (omega arith) h.latencies;
}

pub tick-IsBounded :
    (now_secs : ℕ) (store : MetricsStore) → IsBounded store → IsBounded (tick now_secs store)
unfolding tick
tick-IsBounded now_secs store h = record {
  log = h.log;
  buckets = length-tick_buckets now_secs store.time_buckets h.buckets;
  latencies = h.latencies;
}

-- What requests and the ticks of the clock make of the empty store.
pub data Reachable : MetricsStore → Type 0 where
  start : Reachable new
  recorded :
      (now_ms : ℕ) (s : Sample) {store : MetricsStore}
      → Reachable store
      → Reachable (record_request now_ms s store)
  ticked : (now_secs : ℕ) {store : MetricsStore} → Reachable store → Reachable (tick now_secs store)

-- However many requests come one after the other, the store keeps at most 10000 log entries, 60
-- one-second buckets and 10000 latencies.
Reachable-IsBounded : (store : MetricsStore) → Reachable store → IsBounded store
unfolding new
Reachable-IsBounded _ Reachable.start = record {
  log = omega arith;
  buckets = omega arith;
  latencies = omega arith;
}
Reachable-IsBounded _ (Reachable.recorded now_ms s {store} r) =
    record_request-IsBounded now_ms s store (Reachable-IsBounded store r)
Reachable-IsBounded _ (Reachable.ticked now_secs {store} r) =
    tick-IsBounded now_secs store (Reachable-IsBounded store r)
