-- ===== src/LoadGen/Pump/Statistics.antt =====
-- What the printed statistics of the load generator have to do with the requests.
use Prim.Native.Nat.{max}
use iron_babel.Base.{
  ℕ, zero, suc, ◌+◌, ◌≡◌, ◌≤◌, ◌<◌, subst, refl, ◌∙◌, sym, ap, List, [], ◌∷◌, ◌++◌, Option, none,
  some, ◌⊎◌, inl, inr, arith,
}
use iron_babel.Text.{Str}
use iron_babel.Upstream.{UpstreamResponse}
use iron_babel.LoadGen.{Counters, count_error, count_sent, next_seq}
use iron_babel.Metrics.Counting.{u64_max}
use iron_babel.LoadGen.Pump.{
  Worker, waiting, counting, Line, Pump, spawn_workers, pump_traffic, take_answer, end_round,
  load_total, print_line, Run, begins, answers, counts, loads, prints,
}

-- The workers, and those of them that have not counted an answered request as sent.
abbrev size : List Worker → ℕ
size [] = 0
size (w ∷ ws) = 1 + size ws

abbrev open_rounds : List Worker → ℕ
open_rounds [] = 0
open_rounds (waiting s ∷ ws) = open_rounds ws
open_rounds (counting s ∷ ws) = 1 + open_rounds ws

-- The sum of the column of rates.
abbrev pub sum_rps : List Line → ℕ
sum_rps [] = 0
sum_rps (l ∷ ls) = l.current_rps + sum_rps ls

abbrev pub IsBetween : ℕ → ℕ → Option ℕ → Type 0
IsBetween low high none = Unit {0}
IsBetween low high (some t) = (low ≤ t) × (t ≤ high)

open_rounds-size : (ws : List Worker) → open_rounds ws ≤ size ws
open_rounds-size [] = omega arith
open_rounds-size (waiting s ∷ ws) = omega (arith, open_rounds-size ws)
open_rounds-size (counting s ∷ ws) = omega (arith, open_rounds-size ws)

size-replace :
    (ahead behind : List Worker) (v w : Worker)
    → size (ahead ++ v ∷ behind) ≡ size (ahead ++ w ∷ behind)
size-replace [] behind v w = refl
size-replace (a ∷ ahead) behind v w = ap (λ s. 1 + s) (size-replace ahead behind v w)

open_rounds-replace :
    (ahead behind : List Worker) (s t : ℕ)
    → open_rounds (ahead ++ counting s ∷ behind) ≡ open_rounds (ahead ++ waiting t ∷ behind) + 1
open_rounds-replace [] behind s t = omega arith
open_rounds-replace (waiting a ∷ ahead) behind s t = open_rounds-replace ahead behind s t
open_rounds-replace (counting a ∷ ahead) behind s t =
    omega (arith, open_rounds-replace ahead behind s t)

size-spawn_workers : (k id : ℕ) → size (spawn_workers k id) ≡ k
unfolding spawn_workers
size-spawn_workers zero id = refl
size-spawn_workers (suc k) id = omega (arith, size-spawn_workers k (id + 1))

open_rounds-spawn_workers : (k id : ℕ) → open_rounds (spawn_workers k id) ≡ 0
unfolding spawn_workers
open_rounds-spawn_workers zero id = refl
open_rounds-spawn_workers (suc k) id = open_rounds-spawn_workers k (id + 1)

count_error-sent :
    (answer : Str ⊎ UpstreamResponse) (c : Counters) → (count_error answer c).sent ≡ c.sent
unfolding count_error
count_error-sent (inl e) c = refl
count_error-sent (inr r) c = refl

count_error-errors :
    (answer : Str ⊎ UpstreamResponse) (c : Counters) → (count_error answer c).errors ≤ c.errors + 1
unfolding count_error
count_error-errors (inl e) c = ground arith
count_error-errors (inr r) c = ground arith

-- What holds between any two steps.
record IsSteady (rps n : ℕ) (p : Pump) : Type 0 where
  sent : p.counters.sent ≡ n
  workers : size p.workers ≡ max rps 1
  errors : p.counters.errors ≤ n + open_rounds p.workers
  reported : p.last_sent ≤ n
  loaded : IsBetween p.last_sent n p.loaded
  lines : sum_rps p.lines ≡ p.last_sent

IsBetween-grows :
    (low high : ℕ) (loaded : Option ℕ) → IsBetween low high loaded → IsBetween low (high + 1) loaded
IsBetween-grows low high none h = tt
IsBetween-grows low high (some t) h = (h.0, omega (arith, h.1))

take_answer-IsSteady :
    (rps n : ℕ) (p : Pump) (answer : Str ⊎ UpstreamResponse) (ahead behind : List Worker) (seq : ℕ)
    → p.workers ≡ ahead ++ waiting seq ∷ behind
    → IsSteady rps n p
    → IsSteady rps n (take_answer answer (ahead ++ counting seq ∷ behind) p)
unfolding take_answer
take_answer-IsSteady rps n p answer ahead behind seq at h = record {
  sent = count_error-sent answer p.counters ∙ h.sent;
  workers = size-replace ahead behind (counting seq) (waiting seq) ∙ (sym (ap size at) ∙ h.workers);
  errors = omega (
    arith,
    count_error-errors answer p.counters,
    h.errors,
    ap open_rounds at,
    open_rounds-replace ahead behind seq seq,
  );
  reported = h.reported;
  loaded = h.loaded;
  lines = h.lines;
}

end_round-IsSteady :
    (rps n : ℕ) (p : Pump) (ahead behind : List Worker) (seq next : ℕ)
    → p.workers ≡ ahead ++ counting seq ∷ behind
    → n < u64_max
    → IsSteady rps n p
    → IsSteady rps (n + 1) (end_round (ahead ++ waiting next ∷ behind) p)
unfolding end_round count_sent
end_round-IsSteady rps n p ahead behind seq next at small h = record {
  sent = omega (arith, h.sent);
  workers =
      size-replace ahead behind (waiting next) (counting seq) ∙ (sym (ap size at) ∙ h.workers);
  errors = omega (arith, h.errors, ap open_rounds at, open_rounds-replace ahead behind seq next);
  reported = omega (arith, h.reported);
  loaded = IsBetween-grows p.last_sent n p.loaded h.loaded;
  lines = h.lines;
}

print_line-IsSteady :
    (rps n total : ℕ) (p : Pump)
    → IsBetween p.last_sent n (some total)
    → IsSteady rps n p
    → IsSteady rps n (print_line total p)
unfolding print_line
print_line-IsSteady rps n total p between h = record {
  sent = h.sent;
  workers = h.workers;
  errors = h.errors;
  reported = between.1;
  loaded = tt;
  lines = omega (arith, between.0, h.lines);
}

Run-IsSteady : (rps n : ℕ) (p : Pump) → Run rps n p → n ≤ u64_max → IsSteady rps n p
unfolding pump_traffic load_total
Run-IsSteady rps _ _ begins small = record {
  sent = refl;
  workers = size-spawn_workers (max rps 1) 0;
  errors = omega (arith, open_rounds-spawn_workers (max rps 1) 0);
  reported = omega arith;
  loaded = tt;
  lines = refl;
}
Run-IsSteady rps n _ (answers {p = p} answer ahead behind seq at r) small =
    take_answer-IsSteady rps n p answer ahead behind seq at (Run-IsSteady rps n p r small)
Run-IsSteady rps _ _ (counts {n = n} {p = p} ahead behind seq at r) small =
    end_round-IsSteady rps n p ahead behind seq (next_seq rps seq) at (omega arith)
      (Run-IsSteady rps n p r (omega arith))
Run-IsSteady rps n _ (loads {p = p} idle r) small =
    let h = Run-IsSteady rps n p r small in
    record {
      sent = h.sent;
      workers = h.workers;
      errors = h.errors;
      reported = h.reported;
      loaded = (omega (arith, h.reported, h.sent), omega (arith, h.sent));
      lines = h.lines;
    }
Run-IsSteady rps n _ (prints {p = p} total at r) small =
    let h = Run-IsSteady rps n p r small in
    print_line-IsSteady rps n total p (subst (IsBetween p.last_sent n) at h.loaded) h

-- After `n` requests that 64 bits can count, at any rate and however the workers and the reports
-- interleave: the total is `n`; the total of the last line, which is the sum of the rates of all
-- lines, is at most `n`, and a total that is read and not yet printed lies between the two, so the
-- next rate is no underflow; and the errors exceed the total by at most the number of workers.
pub Run-IsCounted :
    (rps n : ℕ) (p : Pump)
    → Run rps n p
    → n ≤ u64_max
    → (p.counters.sent ≡ n)
      × (sum_rps p.lines ≡ p.last_sent)
      × (p.last_sent ≤ n)
      × IsBetween p.last_sent n p.loaded
      × (p.counters.errors ≤ n + max rps 1)
Run-IsCounted rps n p r small =
    let h = Run-IsSteady rps n p r small in
    (
      h.sent,
      h.lines,
      h.reported,
      h.loaded,
      omega (arith, h.errors, open_rounds-size p.workers, h.workers),
    )
