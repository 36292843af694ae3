-- ===== src/Examples/Recordings.antt =====
-- Two requests that are recorded at the same time, the second of them refused.
use iron_babel.Base.{none, some, List, [], ◌∷◌, arith}
use iron_babel.Text.{text}
use iron_babel.Metrics
use iron_babel.Metrics.{MetricsStore, Sample}
use iron_babel.Metrics.Interleaved.{
  Recording, begin, take_id, advance, perform, Interleaved, starts, begins, proceeds,
}
use iron_babel.Metrics.Bounded.{IsBounded}
use iron_babel.Metrics.Interleaved.Bounded.{Interleaved-IsBounded}
use iron_babel.Metrics.Interleaved.Consistent.{IsConsistent, Interleaved-IsConsistent}

abbrev answered : Sample
answered = record {
  method = text "GET";
  path = text "/api/users";
  matched_route = some (text "/api");
  upstream_target = text "http://a";
  status_code = 200;
  latency_ms = 3;
  error = none;
}

abbrev refused : Sample
refused = record {
  method = text "GET";
  path = text "/api/users";
  matched_route = some (text "/api");
  upstream_target = text "http://a";
  status_code = 429;
  latency_ms = 1;
  error = some (text "Rate limit exceeded");
}

abbrev both_begun : MetricsStore
both_begun = take_id (take_id Metrics.new)

abbrev first : Recording
first = begin 1000 answered Metrics.new

abbrev second : Recording
second = begin 1001 refused (take_id Metrics.new)

-- The second counts itself and its error, and then the first counts itself.
abbrev store : MetricsStore
store =
    perform first.part first
      (perform (advance second).part (advance second) (perform second.part second both_begun))

abbrev going : List Recording
going = advance (advance second) ∷ advance first ∷ []

run : Interleaved (refused ∷ answered ∷ []) going store
run = proceeds (advance (advance second) ∷ []) [] first (
    proceeds [] (first ∷ []) (advance second)
      (proceeds [] (first ∷ []) second (begins 1001 refused (begins 1000 answered starts))))

Interleaved-IsConsistent_example : IsConsistent (refused ∷ answered ∷ []) going store
Interleaved-IsConsistent_example =
    Interleaved-IsConsistent (refused ∷ answered ∷ []) going store run (omega arith)

Interleaved-IsBounded_example : IsBounded store
Interleaved-IsBounded_example = Interleaved-IsBounded (refused ∷ answered ∷ []) going store run
