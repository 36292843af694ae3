-- ===== src/Middleware/RateLimit/Unordered.antt =====
-- The `HashMap` of src/core/middleware/rate_limit.rs has no order: what the limiter answers does not
-- depend on the one in which the model keeps the entries.
use mathlib.Core.Quot
use mathlib.Core.Quot.{Quot, Quot-set}
use iron_babel.Base.{
  ℕ, ◌≡◌, ◌≢◌, refl, sym, ap₂, ◌∙◌, Bool, not, ◌&&◌, List, [], ◌∷◌, ◌++◌, arith, leb, length, inl,
  inr, Bool-cases,
}
use iron_babel.Text.{Str, str_eq}
use iron_babel.Text.Laws.{str_eq_iff}
use iron_babel.Middleware.RateLimit.{
  Limits, max_tracked_clients, timestamps_of, contains_key, put, recent, has_any, evict, make_room,
  is_rate_limited,
}

-- The same entries in another order.
pub data Reordered : Limits → Limits → Type 0 where
  ends : Reordered [] []
  keeps :
      (k : Str) (ts : List ℕ) {m n : Limits} → Reordered m n → Reordered ((k, ts) ∷ m) ((k, ts) ∷ n)
  swaps :
      (k j : Str) (ts us : List ℕ) (m : Limits)
      → k ≢ j
      → Reordered ((k, ts) ∷ (j, us) ∷ m) ((j, us) ∷ (k, ts) ∷ m)
  follows : {m n o : Limits} → Reordered m n → Reordered n o → Reordered m o

Reordered-refl : (m : Limits) → Reordered m m
Reordered-refl [] = ends
Reordered-refl ((k, ts) ∷ m) = keeps k ts (Reordered-refl m)

length-Reordered : {m n : Limits} → Reordered m n → length m ≡ length n
length-Reordered ends = refl
length-Reordered (keeps k ts r) = omega (arith, length-Reordered r)
length-Reordered (swaps k j ts us m h) = refl
length-Reordered (follows r s) = length-Reordered r ∙ length-Reordered s

timestamps_of-Reordered :
    {m n : Limits} (key : Str) → Reordered m n → timestamps_of key m ≡ timestamps_of key n
unfolding timestamps_of
timestamps_of-Reordered key ends = refl
timestamps_of-Reordered key (keeps k ts r) = ground (arith, timestamps_of-Reordered key r)
timestamps_of-Reordered key (swaps k j ts us m h) =
    ground (arith, h, str_eq_iff k key, str_eq_iff j key)
timestamps_of-Reordered key (follows r s) =
    timestamps_of-Reordered key r ∙ timestamps_of-Reordered key s

contains_key-Reordered :
    {m n : Limits} (key : Str) → Reordered m n → contains_key key m ≡ contains_key key n
unfolding contains_key
contains_key-Reordered key ends = refl
contains_key-Reordered key (keeps k ts r) = ground (arith, contains_key-Reordered key r)
contains_key-Reordered key (swaps k j ts us m h) = ground arith
contains_key-Reordered key (follows r s) =
    contains_key-Reordered key r ∙ contains_key-Reordered key s

put-Reordered :
    {m n : Limits} (key : Str) (new : List ℕ)
    → Reordered m n
    → Reordered (put key new m) (put key new n)
unfolding put
put-Reordered key new ends = keeps key new ends
put-Reordered key new (keeps k ts {m} {n} r) = elim (Bool-cases (str_eq k key)) [
  | inl same ↦ rw same (keeps k new r)
  | inr other ↦ rw other (keeps k ts (put-Reordered key new r))
]
put-Reordered key new (swaps k j ts us m h) = elim (Bool-cases (str_eq k key)) [
  | inl first ↦ elim (Bool-cases (str_eq j key)) [
    | inl second ↦ absurd (h ((str_eq_iff k key).0 first ∙ sym ((str_eq_iff j key).0 second)))
    | inr other ↦ rw (first, other) (swaps k j new us m h)
  ]
  | inr other ↦ elim (Bool-cases (str_eq j key)) [
    | inl second ↦ rw (other, second) (swaps k j ts new m h)
    | inr neither ↦ rw (other, neither) (swaps k j ts us (put key new m) h)
  ]
]
put-Reordered key new (follows r s) = follows (put-Reordered key new r) (put-Reordered key new s)

evict-Reordered :
    {m n : Limits} (now window : ℕ)
    → Reordered m n
    → Reordered (evict now window m) (evict now window n)
unfolding evict
evict-Reordered now window ends = ends
evict-Reordered now window (keeps k ts {m} {n} r) =
    elim (Bool-cases (has_any (recent now window ts))) [
      | inl active ↦ rw active (keeps k (recent now window ts) (evict-Reordered now window r))
      | inr idle ↦ rw idle (evict-Reordered now window r)
    ]
evict-Reordered now window (swaps k j ts us m h) =
    elim (Bool-cases (has_any (recent now window ts))) [
      | inl active ↦ elim (Bool-cases (has_any (recent now window us))) [
        | inl both ↦
            rw (active, both)
              (swaps k j (recent now window ts) (recent now window us) (evict now window m) h)
        | inr idle ↦ rw (active, idle) (Reordered-refl _)
      ]
      | inr idle ↦ elim (Bool-cases (has_any (recent now window us))) [
        | inl active ↦ rw (idle, active) (Reordered-refl _)
        | inr neither ↦ rw (idle, neither) (Reordered-refl _)
      ]
    ]
evict-Reordered now window (follows r s) =
    follows (evict-Reordered now window r) (evict-Reordered now window s)

module _ (key : Str) (limit window now : ℕ) where
  make_room-Reordered :
      {m n : Limits}
      → Reordered m n
      → Reordered (make_room now window key m) (make_room now window key n)
  unfolding make_room
  make_room-Reordered {m} {n} r =
      let full : Limits → Bool =
        λ l. not (contains_key key l) && leb max_tracked_clients (length l) in
      let same : full m ≡ full n =
        ap₂ (λ c k. not c && leb max_tracked_clients k) (contains_key-Reordered key r)
          (length-Reordered r) in
      elim (Bool-cases (full n)) [
        | inl crowded ↦ rw (same, crowded) (evict-Reordered now window r)
        | inr room ↦ rw (same, room) r
      ]

  pub is_rate_limited-Reordered :
      {m n : Limits}
      → Reordered m n
      → ((is_rate_limited key limit window now m).0 ≡ (is_rate_limited key limit window now n).0)
        × Reordered
            (is_rate_limited key limit window now m).1
            (is_rate_limited key limit window now n).1
  unfolding is_rate_limited
  is_rate_limited-Reordered {m} {n} r =
      let room = make_room-Reordered r in
      let same = timestamps_of-Reordered key room in
      let ts : List ℕ = recent now window (timestamps_of key (make_room now window key n)) in
      elim (Bool-cases (leb limit (length ts))) [
        | inl over ↦ rw (same, over) (refl, put-Reordered key ts room)
        | inr under ↦ rw (same, under) (refl, put-Reordered key (ts ++ now ∷ []) room)
      ]

-- The map without its order.
abbrev pub ClientMap : Type 0
ClientMap = Quot Reordered

module _ (limit window : ℕ) where
  -- The answer and the map afterwards, of a map without an order.
  unfoldable pub limited_in : Str → ℕ → ClientMap → Bool
  limited_in key now =
      Quot.lift (hlevel) (λ m. (is_rate_limited key limit window now m).0)
        (λ m n r. (is_rate_limited-Reordered key limit window now r).0)

  unfoldable pub map_after : Str → ℕ → ClientMap → ClientMap
  map_after key now =
      Quot.lift Quot-set (λ m. Quot.mk (is_rate_limited key limit window now m).1)
        (λ m n r. Quot.sound (is_rate_limited-Reordered key limit window now r).1)

  unfoldable pub run_in : ClientMap → List (Str × ℕ) → List Bool
  run_in clients [] = []
  run_in clients ((key, now) ∷ rest) =
      limited_in key now clients ∷ run_in (map_after key now clients) rest
