-- ===== src/LoadGen/Pump.antt =====
-- src/bin/load_gen.rs: the workers of pump_traffic and the live statistics of main, step by step.
-- Each access to a counter is a step of its own, since the tasks share the counters without a lock.
pub mod Statistics
use Prim.Native.Nat.{max}
use iron_babel.Base.{ℕ, zero, suc, ◌+◌, ◌-◌, ◌≡◌, List, [], ◌∷◌, ◌++◌, Option, none, some, ◌⊎◌}
use iron_babel.Text.{Str}
use iron_babel.Upstream.{UpstreamResponse}
use iron_babel.LoadGen.{Counters, count_error, count_sent, next_seq}

-- Where a worker stands in its loop, with its sequence number: it has the request to make or waits
-- for the answer, or it has looked at the answer and not yet counted the request as sent.
pub data Worker : Type 0 where
  waiting : ℕ → Worker
  counting : ℕ → Worker

-- The numbers of a printed line.
pub record Line : Type 0 where
  pub total : ℕ
  pub current_rps : ℕ
  pub errs : ℕ

-- `loaded` is the total that the loop has read and not yet printed; the lines are the newest first.
pub record Pump : Type 0 where
  pub counters : Counters
  pub workers : List Worker
  pub loaded : Option ℕ
  pub last_sent : ℕ
  pub lines : List Line

-- The workers from number `worker_id` on.
unfoldable pub spawn_workers : ℕ → ℕ → List Worker
spawn_workers zero worker_id = []
spawn_workers (suc k) worker_id = waiting worker_id ∷ spawn_workers k (worker_id + 1)

unfoldable pub pump_traffic : ℕ → Pump
pump_traffic rps = record {
  counters = record { sent = 0; errors = 0 };
  workers = spawn_workers (max rps 1) 0;
  loaded = none;
  last_sent = 0;
  lines = [];
}

-- The `match` on the answer of a worker.
unfoldable pub take_answer : Str ⊎ UpstreamResponse → List Worker → Pump → Pump
take_answer answer workers p = record {
  counters = count_error answer p.counters;
  workers = workers;
  loaded = p.loaded;
  last_sent = p.last_sent;
  lines = p.lines;
}

-- The end of a worker's round.
unfoldable pub end_round : List Worker → Pump → Pump
end_round workers p = record {
  counters = count_sent p.counters;
  workers = workers;
  loaded = p.loaded;
  last_sent = p.last_sent;
  lines = p.lines;
}

-- The statistics loop reads the total.
unfoldable pub load_total : Pump → Pump
load_total p = record {
  counters = p.counters;
  workers = p.workers;
  loaded = some (p.counters.sent);
  last_sent = p.last_sent;
  lines = p.lines;
}

-- It reads the errors and prints the line for the total it has read.
unfoldable pub print_line : ℕ → Pump → Pump
print_line total p = record {
  counters = p.counters;
  workers = p.workers;
  loaded = none;
  last_sent = total;
  lines =
      record { total = total; current_rps = total - p.last_sent; errs = p.counters.errors }
      ∷ p.lines;
}

-- The states of the program at a rate, by the number of requests that are counted as sent.
pub data Run (rps : ℕ) : ℕ → Pump → Type 0 where
  begins : Run rps 0 (pump_traffic rps)
  answers :
      {n : ℕ} {p : Pump} (answer : Str ⊎ UpstreamResponse) (ahead behind : List Worker) (seq : ℕ)
      → p.workers ≡ ahead ++ waiting seq ∷ behind
      → Run rps n p
      → Run rps n (take_answer answer (ahead ++ counting seq ∷ behind) p)
  counts :
      {n : ℕ} {p : Pump} (ahead behind : List Worker) (seq : ℕ)
      → p.workers ≡ ahead ++ counting seq ∷ behind
      → Run rps n p
      → Run rps (n + 1) (end_round (ahead ++ waiting (next_seq rps seq) ∷ behind) p)
  loads : {n : ℕ} {p : Pump} → p.loaded ≡ none → Run rps n p → Run rps n (load_total p)
  prints :
      {n : ℕ} {p : Pump} (total : ℕ)
      → p.loaded ≡ some total
      → Run rps n p
      → Run rps n (print_line total p)
