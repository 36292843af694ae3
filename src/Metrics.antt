-- ===== src/Metrics.antt =====
-- src/admin/store.rs and src/admin/types.rs: what the gateway records of its requests. Counters are
-- `u64` values and wrap; the clock, in milliseconds of the epoch, is an argument.
pub mod Bounded
pub mod Ring
pub mod Counting
pub mod Rates
pub mod Interleaved
use iron_babel.Base.{
  ℕ, ◌+◌, ◌-◌, ◌*◌, ◌/◌, ◌%◌, Bool, true, false, not, ◌&&◌, ◌||◌, Option, none, some, List, [], ◌∷◌,
  ◌++◌, leb, ltb, ◌==◌, if◌then◌else◌, length, drop, take, get_or, retain, map,
}
use iron_babel.Text.{Str, str_eq}

abbrev pub ring_buffer_cap : ℕ
ring_buffer_cap = 10000

abbrev pub bucket_count : ℕ
bucket_count = 60

abbrev pub latency_buffer_cap : ℕ
latency_buffer_cap = 10000

pub record TimeBucket : Type 0 where
  pub timestamp_secs : ℕ
  pub request_count : ℕ
  pub total_latency_ms : ℕ
  pub error_count : ℕ

pub record RouteStats : Type 0 where
  pub total_requests : ℕ
  pub error_count : ℕ
  pub total_latency_ms : ℕ

pub record RequestLogEntry : Type 0 where
  pub id : ℕ
  pub timestamp_ms : ℕ
  pub method : Str
  pub path : Str
  pub matched_route : Option Str
  pub status_code : ℕ
  pub latency_ms : ℕ
  pub upstream_target : Str
  pub error : Option Str

-- A map is an association list with one entry for each key. `sent` is what `event_tx` was given.
pub record MetricsStore : Type 0 where
  pub request_log : List RequestLogEntry
  pub total_requests : ℕ
  pub total_errors : ℕ
  pub route_stats : List (Str × RouteStats)
  pub time_buckets : List TimeBucket
  pub recent_latencies : List ℕ
  pub status_code_counts : List (ℕ × ℕ)
  pub sent : List RequestLogEntry
  pub next_id : ℕ

-- The arguments of `record_request`.
pub record Sample : Type 0 where
  pub method : Str
  pub path : Str
  pub matched_route : Option Str
  pub upstream_target : Str
  pub status_code : ℕ
  pub latency_ms : ℕ
  pub error : Option Str

unfoldable pub new : MetricsStore
new = record {
  request_log = [];
  total_requests = 0;
  total_errors = 0;
  route_stats = [];
  time_buckets = [];
  recent_latencies = [];
  status_code_counts = [];
  sent = [];
  next_id = 1;
}

-- `u64` addition.
abbrev pub add_u64 : ℕ → ℕ → ℕ
add_u64 a b = (a + b) % 18446744073709551616

pub is_some : Option Str → Bool
is_some none = false
is_some (some _) = true

unfoldable pub is_error : Sample → Bool
unfolding is_some
is_error s = leb 400 s.status_code || is_some s.error

-- `*counts.entry(status_code).or_insert(0) += 1`
unfoldable pub count_status : ℕ → List (ℕ × ℕ) → List (ℕ × ℕ)
count_status code [] = (code, 1) ∷ []
count_status code ((c, n) ∷ m) =
    let rest = count_status code m in if c == code then (c, add_u64 n 1) ∷ m else (c, n) ∷ rest

bump_route : Bool → ℕ → RouteStats → RouteStats
bump_route failed latency s = record {
  total_requests = add_u64 s.total_requests 1;
  error_count = if failed then add_u64 s.error_count 1 else s.error_count;
  total_latency_ms = add_u64 s.total_latency_ms latency;
}

unfoldable pub count_route : Bool → ℕ → Str → List (Str × RouteStats) → List (Str × RouteStats)
unfolding bump_route
count_route failed latency route [] =
    (
      route,
      bump_route failed latency
          (record { total_requests = 0; error_count = 0; total_latency_ms = 0 }),
    )
    ∷ []
count_route failed latency route ((r, s) ∷ m) =
    let rest = count_route failed latency route m in
    if str_eq r route then (r, bump_route failed latency s) ∷ m else (r, s) ∷ rest

count_matched : Bool → ℕ → Option Str → List (Str × RouteStats) → List (Str × RouteStats)
count_matched failed latency none m = m
count_matched failed latency (some route) m = count_route failed latency route m

-- `while buckets.len() > BUCKET_COUNT { buckets.pop_front(); }`
unfoldable pub trim : List TimeBucket → List TimeBucket
trim [] = []
trim (b ∷ bs) = let rest = trim bs in if ltb bucket_count (length (b ∷ bs)) then rest else b ∷ bs

unfoldable pub back : List TimeBucket → Option TimeBucket
back [] = none
back (b ∷ []) = some b
back (_ ∷ c ∷ bs) = back (c ∷ bs)

set_back : TimeBucket → List TimeBucket → List TimeBucket
set_back b [] = []
set_back b (_ ∷ []) = b ∷ []
set_back b (a ∷ c ∷ bs) = a ∷ set_back b (c ∷ bs)

bump_bucket : Bool → ℕ → TimeBucket → TimeBucket
bump_bucket failed latency b = record {
  timestamp_secs = b.timestamp_secs;
  request_count = add_u64 b.request_count 1;
  total_latency_ms = add_u64 b.total_latency_ms latency;
  error_count = if failed then add_u64 b.error_count 1 else b.error_count;
}

first_in_bucket : Bool → ℕ → ℕ → TimeBucket
first_in_bucket failed latency now_secs = record {
  timestamp_secs = now_secs;
  request_count = 1;
  total_latency_ms = latency;
  error_count = if failed then 1 else 0;
}

unfoldable pub count_bucket : Bool → ℕ → ℕ → List TimeBucket → List TimeBucket
unfolding set_back bump_bucket first_in_bucket
count_bucket failed latency now_secs buckets = elim (back buckets) [
  | none ↦ buckets ++ first_in_bucket failed latency now_secs ∷ []
  | some b ↦
      if b.timestamp_secs == now_secs
      then set_back (bump_bucket failed latency b) buckets
      else trim (buckets ++ first_in_bucket failed latency now_secs ∷ [])
]

-- `if len >= cap { pop_front(); } push_back(x);`
unfoldable pub push_capped {ℓ} : {A : Type ℓ} → ℕ → A → List A → List A
push_capped cap x xs = (if leb cap (length xs) then drop 1 xs else xs) ++ x ∷ []

unfoldable pub entry_of : ℕ → ℕ → Sample → RequestLogEntry
entry_of id now_ms s = record {
  id = id;
  timestamp_ms = now_ms;
  method = s.method;
  path = s.path;
  matched_route = s.matched_route;
  status_code = s.status_code;
  latency_ms = s.latency_ms;
  upstream_target = s.upstream_target;
  error = s.error;
}

unfoldable pub record_request : ℕ → Sample → MetricsStore → MetricsStore
unfolding count_matched
record_request now_ms s store = record {
  request_log = push_capped ring_buffer_cap (entry_of store.next_id now_ms s) store.request_log;
  total_requests = add_u64 store.total_requests 1;
  total_errors = if is_error s then add_u64 store.total_errors 1 else store.total_errors;
  route_stats = count_matched (is_error s) s.latency_ms s.matched_route store.route_stats;
  time_buckets = count_bucket (is_error s) s.latency_ms (now_ms / 1000) store.time_buckets;
  recent_latencies = push_capped latency_buffer_cap s.latency_ms store.recent_latencies;
  status_code_counts = count_status s.status_code store.status_code_counts;
  sent = store.sent ++ entry_of store.next_id now_ms s ∷ [];
  next_id = add_u64 store.next_id 1;
}

empty_bucket : ℕ → TimeBucket
empty_bucket now_secs = record {
  timestamp_secs = now_secs;
  request_count = 0;
  total_latency_ms = 0;
  error_count = 0;
}

is_new_second : ℕ → Option TimeBucket → Bool
is_new_second now_secs none = true
is_new_second now_secs (some b) = not (b.timestamp_secs == now_secs)

unfoldable pub tick_buckets : ℕ → List TimeBucket → List TimeBucket
unfolding empty_bucket is_new_second
tick_buckets now_secs buckets =
    if is_new_second now_secs (back buckets)
    then trim (buckets ++ empty_bucket now_secs ∷ [])
    else buckets

unfoldable pub tick : ℕ → MetricsStore → MetricsStore
tick now_secs store = record {
  request_log = store.request_log;
  total_requests = store.total_requests;
  total_errors = store.total_errors;
  route_stats = store.route_stats;
  time_buckets = tick_buckets now_secs store.time_buckets;
  recent_latencies = store.recent_latencies;
  status_code_counts = store.status_code_counts;
  sent = store.sent;
  next_id = store.next_id;
}
