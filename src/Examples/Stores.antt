-- ===== src/Examples/Stores.antt =====
-- The theorems on configurations, the limiter, the metrics and the admin store at concrete ones.
use iron_babel.Base.{
  ◌-◌, ◌≡◌, refl, ◌↔◌, ◌⊎◌, inr, true, false, none, [], ◌∷◌, arith, length, drop, map, retain,
}
use iron_babel.Text.{Str, text, str_eq}
use iron_babel.Error.{ok}
use iron_babel.Config.Types.{GatewayConfig}
use iron_babel.Config.Validate.{validate}
use iron_babel.Config.Valid.{IsValid, validate_iff}
use iron_babel.Config.Load.{Env, load, Loaded, load_iff}
use iron_babel.Middleware.RateLimit.{contains_key, recent, has_any}
use iron_babel.Middleware.RateLimit.Refines.{run, log_run, run-eq-log_run}
use iron_babel.Metrics
use iron_babel.Metrics.{MetricsStore, Sample, TimeBucket, record_request, tick, ring_buffer_cap}
use iron_babel.Metrics.Bounded.{Reachable}
use iron_babel.Metrics.Counting.{Recorded}
use iron_babel.Admin.Reports.{admin_metrics}
use iron_babel.Admin.Reports.Totals.{IsConsistent, admin_metrics-IsConsistent}
use iron_babel.Metrics.Ring.{Reachable-tail}
use iron_babel.Admin
use iron_babel.Admin.{AdminConfigStore, admin_save_draft_config, admin_activate_draft_config}
use iron_babel.Admin.Safety
use iron_babel.Admin.Safety.{admin_save_draft_config-saved, admin_activate_draft_config-activated}
use iron_babel.Examples.SampleJson.{Value}
use iron_babel.Examples.SampleGateway.{gateway_config}

validate_iff_example : (validate gateway_config ≡ ok tt) ↔ IsValid gateway_config
validate_iff_example = validate_iff gateway_config

run-eq-log_run_example :
    (run 1 60 [] ((text "a", 5) ∷ (text "a", 7) ∷ (text "b", 7) ∷ [])).0
    ≡ (log_run 1 60 [] ((text "a", 5) ∷ (text "a", 7) ∷ (text "b", 7) ∷ [])).0
run-eq-log_run_example =
    run-eq-log_run 1 60 ((text "a", 5) ∷ (text "a", 7) ∷ (text "b", 7) ∷ [])
      (omega arith, (omega arith, (omega arith, tt)))

absent : contains_key (text "b") ((text "a", 5 ∷ []) ∷ []) ≡ false
unfolding contains_key str_eq text
absent = refl

active : has_any (recent 7 60 (5 ∷ [])) ≡ true
unfolding has_any recent retain
active = refl

sample : Sample
sample = record {
  method = text "GET";
  path = text "/";
  matched_route = none;
  upstream_target = [];
  status_code = 404;
  latency_ms = 3;
  error = none;
}

store_after : MetricsStore
store_after = tick 2 (record_request 1000 sample Metrics.new)

after-Recorded : Recorded 1 store_after
unfolding store_after
after-Recorded = Recorded.ticks 2 (Recorded.records 1000 sample Recorded.begins)

admin_metrics-IsConsistent_example : IsConsistent 1 (admin_metrics (λ p n. n) 2 1 store_after)
admin_metrics-IsConsistent_example =
    admin_metrics-IsConsistent (λ p n. n) 2 1 1 store_after after-Recorded (omega arith)

after-Reachable : Reachable store_after
unfolding store_after
after-Reachable = Reachable.ticked 2 (Reachable.recorded 1000 sample Reachable.start)

Reachable-tail_example :
    (store_after.request_log ≡ drop (length store_after.sent - ring_buffer_cap) store_after.sent)
    × (store_after.recent_latencies ≡ map (λ e. e.latency_ms) store_after.request_log)
Reachable-tail_example = Reachable-tail store_after after-Reachable

abbrev no_variables : Env
no_variables name = none

abbrev read_to_string : Str → Str ⊎ Str
read_to_string path = inr path

abbrev from_str : Str → Str ⊎ GatewayConfig Value
from_str contents = inr gateway_config

load_iff_example :
    (load read_to_string from_str no_variables ≡ ok gateway_config)
    ↔ Loaded read_to_string from_str no_variables gateway_config
load_iff_example = load_iff read_to_string from_str no_variables gateway_config
