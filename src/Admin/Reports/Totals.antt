-- ===== src/Admin/Reports/Totals.antt =====
-- What the totals of a report have to do with each other.
use iron_babel.Base.{ℕ, ◌+◌, ◌≤◌, ◌≡◌, refl, ap, ◌∙◌, List, [], ◌∷◌, map, arith}
use iron_babel.Text.{Str, decimal}
use iron_babel.Text.Decimal.{decimal-injective}
use iron_babel.Metrics.{MetricsStore, RouteStats}
use iron_babel.Metrics.Counting.{
  sum_of, requests_of, Lacks, HasDistinct, Recorded, u64_max, Recorded-HasTotals,
}
use iron_babel.Admin.Reports.{MetricsSummary, admin_metrics, ratio}

sum_of-rename :
    {K L : Type 0} (f : K → L) (m : List (K × ℕ)) → sum_of (map (λ e. (f e.0, e.1)) m) ≡ sum_of m
sum_of-rename f [] = refl
sum_of-rename f (e ∷ m) = ap (λ s. e.1 + s) (sum_of-rename f m)

sum_of-requests :
    (m : List (Str × RouteStats)) → sum_of (map (λ e. (e.0, e.1.total_requests)) m) ≡ requests_of m
sum_of-requests [] = refl
sum_of-requests (e ∷ m) = ap (λ s. e.1.total_requests + s) (sum_of-requests m)

Lacks-rename :
    (k : ℕ) (m : List (ℕ × ℕ)) → Lacks k m → Lacks (decimal k) (map (λ e. (decimal e.0, e.1)) m)
Lacks-rename k [] h = tt
Lacks-rename k (e ∷ m) h = (λ same. h.0 (decimal-injective e.0 k same), Lacks-rename k m h.1)

HasDistinct-rename :
    (m : List (ℕ × ℕ)) → HasDistinct m → HasDistinct (map (λ e. (decimal e.0, e.1)) m)
HasDistinct-rename [] h = tt
HasDistinct-rename (e ∷ m) h = (Lacks-rename e.0 m h.0, HasDistinct-rename m h.1)

ratio-proper : (sum count : ℕ) → sum ≤ count → (ratio sum count).0 ≤ (ratio sum count).1
unfolding ratio
ratio-proper sum count h = ground arith

-- The report's totals agree.
pub record IsConsistent (n : ℕ) (report : MetricsSummary) : Type 0 where
  pub counted : report.total_requests ≡ n
  pub by_status : sum_of report.status_code_counts ≡ n
  pub one_per_status : HasDistinct report.status_code_counts
  pub by_route : sum_of report.requests_by_route ≤ n
  pub rate_at_most_one : report.error_rate.0 ≤ report.error_rate.1

-- After `n` requests that 64 bits can count, and any number of ticks, a metrics report that is made
-- while no request is recorded counts `n` requests, its counts by status code are one for each code
-- and add up to `n`, its counts by route add up to at most `n`, and its error rate is at most one.
pub admin_metrics-IsConsistent :
    (ceil_rank : ℕ → ℕ → ℕ) (now_secs uptime_secs n : ℕ) (store : MetricsStore)
    → Recorded n store
    → n ≤ u64_max
    → IsConsistent n (admin_metrics ceil_rank now_secs uptime_secs store)
unfolding admin_metrics
admin_metrics-IsConsistent ceil_rank now_secs uptime_secs n store r small =
    let h = Recorded-HasTotals n store r small in
    record {
      counted = h.counted;
      by_status = sum_of-rename decimal store.status_code_counts ∙ h.by_status;
      one_per_status = HasDistinct-rename store.status_code_counts h.distinct;
      by_route = omega (arith, sum_of-requests store.route_stats, h.by_route);
      rate_at_most_one =
          ratio-proper store.total_errors store.total_requests (omega (arith, h.errors, h.counted));
    }
