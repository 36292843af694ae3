-- ===== src/Metrics/Interleaved.antt =====
-- `record_request` of src/admin/store.rs beside others: no lock is held from its start to its end, so
-- between two of its parts the parts of other requests may come.
pub mod Whole
pub mod Tally
pub mod Parts
pub mod Bounded
pub mod Ids
pub mod Consistent
use iron_babel.Base.{ℕ, ◌≡◌, ◌/◌, List, [], ◌∷◌, ◌++◌, if◌then◌else◌}
use iron_babel.Metrics.{
  MetricsStore, Sample, new, add_u64, is_error, count_status, count_matched, count_bucket,
  push_capped, ring_buffer_cap, latency_buffer_cap, entry_of, tick,
}

-- The part that comes next. Each atomic addition is one, and each block that holds a lock.
pub data Part : Type 0 where
  total error status route bucket latency log event finished : Part

unfoldable pub following : Part → Part
following Part.total = Part.error
following Part.error = Part.status
following Part.status = Part.route
following Part.route = Part.bucket
following Part.bucket = Part.latency
following Part.latency = Part.log
following Part.log = Part.event
following Part.event = Part.finished
following Part.finished = Part.finished

-- A request that is being recorded: its locals, and where it stands.
pub record Recording : Type 0 where
  pub id : ℕ
  pub timestamp_ms : ℕ
  pub sample : Sample
  pub part : Part

-- `self.next_id.fetch_add(1)`, and the clock.
unfoldable pub begin : ℕ → Sample → MetricsStore → Recording
begin now_ms s store = record {
  id = store.next_id;
  timestamp_ms = now_ms;
  sample = s;
  part = Part.total;
}

unfoldable pub take_id : MetricsStore → MetricsStore
take_id store = record store { next_id = add_u64 store.next_id 1 }

unfoldable pub advance : Recording → Recording
advance r = record r { part = following r.part }

-- What each part does to the store.
unfoldable pub perform : Part → Recording → MetricsStore → MetricsStore
unfolding count_matched
perform Part.total r store = record store { total_requests = add_u64 store.total_requests 1 }
perform Part.error r store = record store {
  total_errors = if is_error r.sample then add_u64 store.total_errors 1 else store.total_errors;
}
perform Part.status r store = record store {
  status_code_counts = count_status r.sample.status_code store.status_code_counts;
}
perform Part.route r store = record store {
  route_stats =
      count_matched (is_error r.sample) r.sample.latency_ms r.sample.matched_route
        store.route_stats;
}
perform Part.bucket r store = record store {
  time_buckets =
      count_bucket (is_error r.sample) r.sample.latency_ms (r.timestamp_ms / 1000)
        store.time_buckets;
}
perform Part.latency r store = record store {
  recent_latencies = push_capped latency_buffer_cap r.sample.latency_ms store.recent_latencies;
}
perform Part.log r store = record store {
  request_log =
      push_capped ring_buffer_cap (entry_of r.id r.timestamp_ms r.sample) store.request_log;
}
perform Part.event r store = record store {
  sent = store.sent ++ entry_of r.id r.timestamp_ms r.sample ∷ [];
}
perform Part.finished r store = store

-- The stores that requests reach whose parts come in any order among each other, with the samples
-- that they record, and those that are still being recorded. `tick` holds its one lock throughout.
pub data Interleaved : List Sample → List Recording → MetricsStore → Type 0 where
  starts : Interleaved [] [] new
  begins :
      {samples : List Sample} {going : List Recording} {store : MetricsStore} (now_ms : ℕ)
      (s : Sample)
      → Interleaved samples going store
      → Interleaved (s ∷ samples) (begin now_ms s store ∷ going) (take_id store)
  proceeds :
      {samples : List Sample} {store : MetricsStore} (before after : List Recording) (r : Recording)
      → Interleaved samples (before ++ r ∷ after) store
      → Interleaved samples (before ++ advance r ∷ after) (perform r.part r store)
  ends :
      {samples : List Sample} {store : MetricsStore} (before after : List Recording) (r : Recording)
      → r.part ≡ Part.finished
      → Interleaved samples (before ++ r ∷ after) store
      → Interleaved samples (before ++ after) store
  ticks :
      {samples : List Sample} {going : List Recording} {store : MetricsStore} (now_secs : ℕ)
      → Interleaved samples going store
      → Interleaved samples going (tick now_secs store)
