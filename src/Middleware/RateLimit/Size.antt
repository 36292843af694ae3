-- ===== src/Middleware/RateLimit/Size.antt =====
-- How large the map of tracked clients grows.
use iron_babel.Base.{
  ℕ, suc, ◌+◌, ◌≤◌, ◌≡◌, refl, true, false, List, [], ◌∷◌, ◌++◌, arith, leb, if◌then◌else◌, length,
  All, inl, inr, Bool-cases,
}
use iron_babel.Text.{Str}
use iron_babel.Middleware.RateLimit.{
  Limits, timestamps_of, contains_key, put, recent, has_any, evict, make_room, is_rate_limited,
}

evict_active :
    (now window : ℕ) (m : Limits)
    → All (λ e. has_any (recent now window e.1) ≡ true) m
    → length (evict now window m) ≡ length m
unfolding evict
evict_active now window [] h = refl
evict_active now window ((k, ts) ∷ m) h = ground (arith, evict_active now window m h.1)

length-evict_le : (now window : ℕ) (m : Limits) → length (evict now window m) ≤ length m
unfolding evict
length-evict_le now window [] = omega arith
length-evict_le now window ((k, ts) ∷ m) = ground (arith, length-evict_le now window m)

length-put :
    (k : Str) (ts : List ℕ) (m : Limits)
    → length (put k ts m) ≡ (if contains_key k m then length m else suc (length m))
unfolding put contains_key
length-put k ts [] = refl
length-put k ts ((j, old) ∷ m) = ground (arith, length-put k ts m)

contains_key-evict :
    (k : Str) (now window : ℕ) (m : Limits)
    → contains_key k m ≡ false
    → contains_key k (evict now window m) ≡ false
unfolding evict contains_key
contains_key-evict k now window [] h = refl
contains_key-evict k now window ((j, ts) ∷ m) h = ground (arith, contains_key-evict k now window m)

length_after :
    (key : Str) (limit window now : ℕ) (m : Limits)
    → length (is_rate_limited key limit window now m).1 ≡ (
        if contains_key key (make_room now window key m)
        then length (make_room now window key m)
        else suc (length (make_room now window key m)))
unfolding is_rate_limited
length_after key limit window now m =
    let room : Limits = make_room now window key m in
    elim (Bool-cases (leb limit (length (recent now window (timestamps_of key room))))) [
      | inl over ↦ rw over (length-put key (recent now window (timestamps_of key room)) room)
      | inr under ↦
          rw under (length-put key (recent now window (timestamps_of key room) ++ now ∷ []) room)
    ]

-- One request adds at most one client to the map.
pub length-is_rate_limited_le :
    (key : Str) (limit window now : ℕ) (m : Limits)
    → length (is_rate_limited key limit window now m).1 ≤ length m + 1
unfolding make_room
length-is_rate_limited_le key limit window now m =
    ground (arith, length_after key limit window now m, length-evict_le now window m)

-- A client that is new is added even if `max_tracked_clients` or more are tracked, if each of these
-- has a request in the window: the map then has one client more.
pub length-is_rate_limited :
    (key : Str) (limit window now : ℕ) (m : Limits)
    → contains_key key m ≡ false
    → All (λ e. has_any (recent now window e.1) ≡ true) m
    → length (is_rate_limited key limit window now m).1 ≡ length m + 1
unfolding make_room
length-is_rate_limited key limit window now m h active =
    let evicted = evict_active now window m active in
    let absent = contains_key-evict key now window m h in
    ground (arith, length_after key limit window now m)
