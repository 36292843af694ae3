-- ===== src/Metrics/Ring.antt =====
-- The ring buffers of src/admin/store.rs beside all that was sent to the subscribers.
use iron_babel.Base.{
  ℕ, ◌-◌, ◌<◌, ◌≤◌, ◌≡◌, refl, sym, ap, ◌∙◌, List, [], ◌∷◌, ◌++◌, arith, leb, length, drop, map,
  length-append, length-drop, length-map, zero, suc, Bool-cases, inl, inr,
}
use iron_babel.Metrics.{
  MetricsStore, RequestLogEntry, Sample, new, record_request, tick, push_capped, entry_of,
  ring_buffer_cap, latency_buffer_cap,
}
use iron_babel.Metrics.Bounded.{Reachable}

module _ {A : Type 0} where
  drop-append : (n : ℕ) (xs ys : List A) → n ≤ length xs → drop n (xs ++ ys) ≡ drop n xs ++ ys
  drop-append zero xs ys h = refl
  drop-append (suc n) [] ys h = absurd (omega arith)
  drop-append (suc n) (x ∷ xs) ys h = drop-append n xs ys (omega arith)

  drop-drop : (n : ℕ) (xs : List A) → drop 1 (drop n xs) ≡ drop (suc n) xs
  drop-drop zero xs = refl
  drop-drop (suc n) [] = refl
  drop-drop (suc n) (x ∷ xs) = drop-drop n xs

  -- A ring buffer that holds the latest `cap` elements holds them after a push.
  push_capped-drop :
      (cap : ℕ) (x : A) (xs : List A)
      → 0 < cap
      → push_capped cap x (drop (length xs - cap) xs)
        ≡ drop (length (xs ++ x ∷ []) - cap) (xs ++ x ∷ [])
  unfolding push_capped
  push_capped-drop cap x xs pos =
      let kept = length-drop (length xs - cap) xs in
      let grown = length-append xs (x ∷ []) in
      elim (Bool-cases (leb cap (length (drop (length xs - cap) xs)))) [
        | inl full ↦
            let next : length (xs ++ x ∷ []) - cap ≡ suc (length xs - cap) =
              ground (arith, kept, grown) in
            rw (full, next, drop-drop (length xs - cap) xs)
              (sym (drop-append (suc (length xs - cap)) xs (x ∷ []) (ground (arith, kept))))
        | inr room ↦
            let before : length xs - cap ≡ 0 = ground (arith, kept) in
            let after : length (xs ++ x ∷ []) - cap ≡ 0 = ground (arith, kept, grown) in
            rw (room, before, after) refl
      ]

map-drop :
    (f : RequestLogEntry → ℕ) (n : ℕ) (xs : List RequestLogEntry)
    → map f (drop n xs) ≡ drop n (map f xs)
map-drop f zero xs = refl
map-drop f (suc n) [] = refl
map-drop f (suc n) (x ∷ xs) = map-drop f n xs

record IsTail (store : MetricsStore) : Type 0 where
  log : store.request_log ≡ drop (length store.sent - ring_buffer_cap) store.sent
  latencies :
      store.recent_latencies
      ≡ drop
          (length (map (λ e. e.latency_ms) store.sent) - latency_buffer_cap)
          (map (λ e. e.latency_ms) store.sent)

map-append :
    (f : RequestLogEntry → ℕ) (xs ys : List RequestLogEntry)
    → map f (xs ++ ys) ≡ map f xs ++ map f ys
map-append f [] ys = refl
map-append f (x ∷ xs) ys = ap (λ l. f x ∷ l) (map-append f xs ys)

record_request-IsTail :
    (now_ms : ℕ) (s : Sample) (store : MetricsStore)
    → IsTail store
    → IsTail (record_request now_ms s store)
unfolding record_request entry_of
record_request-IsTail now_ms s store h = record {
  log = rw h.log (push_capped-drop ring_buffer_cap _ store.sent (omega arith));
  latencies =
      rw
        (
          h.latencies,
          map-append (λ e. e.latency_ms) store.sent (entry_of store.next_id now_ms s ∷ []),
        )
        (push_capped-drop latency_buffer_cap s.latency_ms (map (λ e. e.latency_ms) store.sent)
          (omega arith));
}

tick-IsTail : (now_secs : ℕ) (store : MetricsStore) → IsTail store → IsTail (tick now_secs store)
unfolding tick
tick-IsTail now_secs store h = record { log = h.log; latencies = h.latencies }

Reachable-IsTail : (store : MetricsStore) → Reachable store → IsTail store
unfolding new
Reachable-IsTail _ Reachable.start = record { log = refl; latencies = refl }
Reachable-IsTail _ (Reachable.recorded now_ms s {store} r) =
    record_request-IsTail now_ms s store (Reachable-IsTail store r)
Reachable-IsTail _ (Reachable.ticked now_secs {store} r) =
    tick-IsTail now_secs store (Reachable-IsTail store r)

-- In every store that is reached by requests which are recorded one after the other, the request log
-- is the last 10000 entries of all that were sent to the subscribers, in their order, and the
-- latencies are theirs.
pub Reachable-tail :
    (store : MetricsStore)
    → Reachable store
    → (store.request_log ≡ drop (length store.sent - ring_buffer_cap) store.sent)
      × (store.recent_latencies ≡ map (λ e. e.latency_ms) store.request_log)
Reachable-tail store r =
    let h = Reachable-IsTail store r in
    let latency : RequestLogEntry → ℕ = λ e. e.latency_ms in
    (
      h.log,
      h.latencies
          ∙ (ap (λ n. drop (n - latency_buffer_cap) (map latency store.sent))
                (length-map latency store.sent)
              ∙ (sym (map-drop latency (length store.sent - ring_buffer_cap) store.sent)
                  ∙ ap (map latency) (sym h.log))),
    )
