-- ===== src/Admin/Reports.antt =====
-- src/admin/handlers.rs: the reports that only read the state. A float quotient is a fraction, its
-- numerator first. `to_string` of different status codes differs, so the map keeps its entries.
pub mod Totals
use iron_babel.Base.{ℕ, Bool, Option, none, some, List, [], ◌∷◌, map, length, ltb, if◌then◌else◌}
use iron_babel.Text.{Str, text, str_eq, decimal}
use iron_babel.Config.Types.{
  TransportConfig, http, zmq, graphql, grpc, web_socket, mqtt, amqp, RouteConfig, GatewayConfig,
}
use iron_babel.Json.{lookup}
use iron_babel.Metrics.{MetricsStore, RouteStats, TimeBucket}
use iron_babel.Metrics.Rates.{compute_rps, get_percentiles}
use iron_babel.Gateway.{transport_target, transport_timeout}
use iron_babel.Admin.{AdminConfigStore}

abbrev pub Fraction : Type 0
Fraction = ℕ × ℕ

pub record BucketPoint : Type 0 where
  pub timestamp_secs : ℕ
  pub value : Fraction

pub record MetricsSummary : Type 0 where
  pub total_requests : ℕ
  pub rps : Fraction
  pub error_rate : Fraction
  pub p50_latency_ms : ℕ
  pub p95_latency_ms : ℕ
  pub p99_latency_ms : ℕ
  pub status_code_counts : List (Str × ℕ)
  pub requests_by_route : List (Str × ℕ)
  pub rps_series : List BucketPoint
  pub latency_series : List BucketPoint

pub record HealthResponse : Type 0 where
  pub status : Str
  pub uptime_secs : ℕ
  pub version : Str
  pub active_routes : ℕ

pub record RouteInfo : Type 0 where
  pub path : Str
  pub transport_type : Str
  pub target : Str
  pub methods : List Str
  pub timeout_secs : ℕ
  pub total_requests : ℕ
  pub error_count : ℕ
  pub avg_latency_ms : Fraction

pub record ConfigSnapshot (V : Type 0) : Type 0 where
  pub active : GatewayConfig V
  pub draft : GatewayConfig V

-- `if count > 0 { sum as f64 / count as f64 } else { 0.0 }`
unfoldable pub ratio : ℕ → ℕ → Fraction
ratio sum count = if ltb 0 count then (sum, count) else (0, 1)

unfoldable pub rps_point : TimeBucket → BucketPoint
rps_point b = record { timestamp_secs = b.timestamp_secs; value = (b.request_count, 1) }

unfoldable pub latency_point : TimeBucket → BucketPoint
latency_point b = record {
  timestamp_secs = b.timestamp_secs;
  value = ratio b.total_latency_ms b.request_count;
}

-- The clock's seconds, the uptime and the rank of a percentile are arguments. The code reads the
-- parts of the store one after the other; here no request is recorded meanwhile.
unfoldable pub admin_metrics : (ℕ → ℕ → ℕ) → ℕ → ℕ → MetricsStore → MetricsSummary
admin_metrics ceil_rank now_secs uptime_secs metrics =
    let (p50, p95, p99) = get_percentiles ceil_rank metrics in
    record {
      total_requests = metrics.total_requests;
      rps = compute_rps metrics now_secs uptime_secs;
      error_rate = ratio metrics.total_errors metrics.total_requests;
      p50_latency_ms = p50;
      p95_latency_ms = p95;
      p99_latency_ms = p99;
      status_code_counts = map (λ e. (decimal e.0, e.1)) metrics.status_code_counts;
      requests_by_route = map (λ e. (e.0, e.1.total_requests)) metrics.route_stats;
      rps_series = map rps_point metrics.time_buckets;
      latency_series = map latency_point metrics.time_buckets;
    }

unfoldable pub transport_type : TransportConfig → Str
transport_type (http cfg) = text "http"
transport_type (zmq cfg) = text "zmq"
transport_type (graphql cfg) = text "graphql"
transport_type (grpc cfg) = text "grpc"
transport_type (web_socket cfg) = text "websocket"
transport_type (mqtt cfg) = text "mqtt"
transport_type (amqp cfg) = text "amqp"

-- `route_stats.get(&r.path).cloned().unwrap_or_default()`
unfoldable pub stats_of : Str → List (Str × RouteStats) → RouteStats
stats_of path route_stats = elim (lookup path route_stats) [
  | some stats ↦ stats
  | none ↦ record { total_requests = 0; error_count = 0; total_latency_ms = 0 }
]

unfoldable pub route_info : List (Str × RouteStats) → RouteConfig → RouteInfo
route_info route_stats r =
    let stats = stats_of r.path route_stats in
    record {
      path = r.path;
      transport_type = transport_type r.transport;
      target = transport_target r.transport;
      methods = r.methods;
      timeout_secs = transport_timeout r.transport;
      total_requests = stats.total_requests;
      error_count = stats.error_count;
      avg_latency_ms = ratio stats.total_latency_ms stats.total_requests;
    }

module _ {V : Type 0} where
  -- `version` is the package's version, which the build sets.
  unfoldable pub admin_health : Str → ℕ → AdminConfigStore V → HealthResponse
  admin_health version uptime_secs store = record {
    status = text "ok";
    uptime_secs = uptime_secs;
    version = version;
    active_routes = length store.active.routes;
  }

  unfoldable pub admin_routes : MetricsStore → AdminConfigStore V → List RouteInfo
  admin_routes metrics store = map (route_info metrics.route_stats) store.active.routes

  -- `snapshot` and `admin_config`
  unfoldable pub admin_config : AdminConfigStore V → ConfigSnapshot V
  admin_config store = record { active = store.active; draft = store.draft }
