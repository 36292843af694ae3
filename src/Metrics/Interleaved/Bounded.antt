-- ===== src/Metrics/Interleaved/Bounded.antt =====
-- The buffers of the store while requests are recorded at the same time.
use iron_babel.Base.{List, ◌∷◌, ◌++◌, arith}
use iron_babel.Metrics.{MetricsStore, Sample, new, ring_buffer_cap, latency_buffer_cap}
use iron_babel.Metrics.Bounded.{IsBounded, length-push_capped, length-count_bucket, tick-IsBounded}
use iron_babel.Metrics.Interleaved.{
  Part, Recording, take_id, perform, Interleaved, starts, begins, proceeds, ends, ticks,
}

perform-IsBounded :
    (part : Part) (r : Recording) (store : MetricsStore)
    → IsBounded store
    → IsBounded (perform part r store)
unfolding perform
perform-IsBounded Part.bucket r store h = record {
  log = h.log;
  buckets = length-count_bucket _ _ _ store.time_buckets h.buckets;
  latencies = h.latencies;
}
perform-IsBounded Part.latency r store h = record {
  log = h.log;
  buckets = h.buckets;
  latencies =
      length-push_capped latency_buffer_cap _ store.recent_latencies (omega arith) h.latencies;
}
perform-IsBounded Part.log r store h = record {
  log = length-push_capped ring_buffer_cap _ store.request_log (omega arith) h.log;
  buckets = h.buckets;
  latencies = h.latencies;
}
perform-IsBounded _ r store h = record { log = h.log; buckets = h.buckets; latencies = h.latencies }

-- However many requests come, and however their parts and the ticks of the clock follow each other,
-- the store keeps at most 10000 log entries, 60 one-second buckets and 10000 latencies.
pub Interleaved-IsBounded :
    (samples : List Sample) (going : List Recording) (store : MetricsStore)
    → Interleaved samples going store
    → IsBounded store
unfolding new take_id
Interleaved-IsBounded _ _ _ starts = record {
  log = omega arith;
  buckets = omega arith;
  latencies = omega arith;
}
Interleaved-IsBounded _ _ _
      (begins {samples = samples} {going = going} {store = store} now_ms s run) =
    let h = Interleaved-IsBounded samples going store run in
    record { log = h.log; buckets = h.buckets; latencies = h.latencies }
Interleaved-IsBounded _ _ _ (proceeds {samples = samples} {store = store} before after r run) =
    perform-IsBounded r.part r store (Interleaved-IsBounded samples (before ++ r ∷ after) store run)
Interleaved-IsBounded _ _ _ (ends {samples = samples} {store = store} before after r over run) =
    Interleaved-IsBounded samples (before ++ r ∷ after) store run
Interleaved-IsBounded _ _ _
      (ticks {samples = samples} {going = going} {store = store} now_secs run) =
    tick-IsBounded now_secs store (Interleaved-IsBounded samples going store run)
