-- ===== src/Metrics/Interleaved/Whole.antt =====
-- The parts of `record_request` one after the other.
use iron_babel.Base.{ℕ, ◌≡◌, refl, zero, suc}
use iron_babel.Metrics.{MetricsStore, Sample, record_request}
use iron_babel.Metrics.Interleaved.{Recording, following, begin, take_id, advance, perform}

-- As many parts of one request as the number says, with none of another between them.
abbrev pub run_parts : ℕ → Recording → MetricsStore → MetricsStore
run_parts zero r store = store
run_parts (suc n) r store = run_parts n (advance r) (perform r.part r store)

-- Undisturbed, the eight parts of a request make its `record_request`.
pub run_parts-eq-record_request :
    (now_ms : ℕ) (s : Sample) (store : MetricsStore)
    → run_parts 8 (begin now_ms s store) (take_id store) ≡ record_request now_ms s store
unfolding begin take_id advance perform following record_request
run_parts-eq-record_request now_ms s store = refl
