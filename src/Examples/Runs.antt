-- ===== src/Examples/Runs.antt =====
-- The gateway's lifecycle and its listeners at concrete inputs.
use iron_babel.Base.{arith, ◌≤◌, ◌≡◌, refl, ◌⊎◌, some, List, [], ◌∷◌, inl, inr}
use iron_babel.Text.{Str, text}
use iron_babel.Error.{ok}
use iron_babel.Config.Types.{GatewayConfig, ListenerConfig}
use iron_babel.Upstream.{UpstreamRequest}
use iron_babel.Lifecycle.{DefaultGateway, new, start, stop, begins, starts, stops}
use iron_babel.Lifecycle.Ledger.{IsAccounted, Reachable-IsAccounted}
use iron_babel.Lifecycle.Process.{World}
use iron_babel.Examples.SampleJson.{sample_json}
use iron_babel.Examples.SampleGateway.{routes, section}
use iron_babel.Transport.{Session, shutdown_first, other_first, Round}
use iron_babel.LoadGen.{next_seq, count_error}
use iron_babel.LoadGen.Pump.{
  spawn_workers, waiting, counting, Pump, pump_traffic, take_answer, end_round, load_total,
  print_line, Run, begins,
}
use iron_babel.LoadGen.Pump.Statistics.{sum_rps, IsBetween, Run-IsCounted}
use iron_babel.Transport.Zmq.{PullSocket, run_pull_session}

abbrev listeners : List ListenerConfig
listeners =
    ListenerConfig.zmq_pull (record { bind = text "host:1"; forward_to = text "http://t" }) ∷ []

abbrev bound : Str → Str ⊎ Unit {0}
bound = λ addr. inr tt

-- The gateway is started, refused a second start, stopped and started again.
Reachable-IsAccounted_example :
    IsAccounted
      (start bound [] 80 listeners
        (stop (start bound [] 80 listeners (start bound [] 80 listeners new).1).1)).1
Reachable-IsAccounted_example =
    Reachable-IsAccounted listeners _
      (starts bound [] 80 (stops (starts bound [] 80 (starts bound [] 80 begins))))

-- A process with the sample configuration and one listener.
abbrev config : GatewayConfig sample_json.Value
config = record {
  port = 8080;
  host = text "127.0.0.1";
  protocols = [];
  routes = routes;
  listeners = listeners;
  middleware = section;
}

abbrev world : World sample_json
world = record { init = ok tt; load = ok config; bind = bound; ctrl_c = ok tt }

abbrev ended : DefaultGateway
ended = (stop (start bound (text "127.0.0.1") 8080 listeners new).1)

-- A session that a receive error ends after one message, and one that the signal interrupts.
abbrev pulls : PullSocket → Session UpstreamRequest
pulls = run_pull_session (record { bind = text "host:1"; forward_to = text "http://t" })

abbrev first_round : Round PullSocket
first_round = record {
  session = record {
    bind = λ addr. some (inr tt);
    received = inr (text "a" ∷ []) ∷ inl (text "reset") ∷ [];
  };
  while_running = other_first;
  while_waiting = other_first;
}

abbrev last_round : Round PullSocket
last_round = record {
  session = record { bind = λ addr. some (inr tt); received = inr (text "b" ∷ []) ∷ [] };
  while_running = shutdown_first;
  while_waiting = other_first;
}

-- One worker's first request fails; a line is printed before the request counts as sent.
abbrev reported : Pump
reported =
    print_line 0
      (load_total (take_answer (inl (text "refused")) (counting 0 ∷ []) (pump_traffic 1)))

abbrev pumped : Pump
pumped = end_round (waiting 1 ∷ []) reported

pumped-Run : Run 1 1 pumped
unfolding pump_traffic spawn_workers take_answer load_total print_line next_seq count_error
pumped-Run = Run.counts [] [] 0 refl (
    Run.prints 0 refl (Run.loads refl (Run.answers (inl (text "refused")) [] [] 0 refl Run.begins)))

Run-IsCounted_example :
    (pumped.counters.sent ≡ 1)
    × (sum_rps pumped.lines ≡ pumped.last_sent)
    × (pumped.last_sent ≤ 1)
    × IsBetween pumped.last_sent 1 pumped.loaded
    × (pumped.counters.errors ≤ 2)
Run-IsCounted_example = Run-IsCounted 1 1 pumped pumped-Run (omega arith)
