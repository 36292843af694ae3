-- ===== src/Middleware/RateLimit.antt =====
-- src/core/middleware/rate_limit.rs: the sliding window per client. An `Instant` is a number of
-- nanoseconds on a monotonic clock; `duration_since` stops at zero, as `-` does.
pub mod Window
pub mod Refines
pub mod Size
pub mod Passing
pub mod Unordered
pub mod Configured
use iron_babel.Base.{
  ℕ, ◌-◌, ◌*◌, ◌%◌, Bool, true, false, not, ◌&&◌, Option, none, some, List, [], ◌∷◌, ◌++◌, leb,
  if◌then◌else◌, length, retain,
}
use iron_babel.Text.{Str, text, str_eq}
use iron_babel.Error.{Error, Result, ok, err}
use iron_babel.Json.{Json}
use iron_babel.Middleware.{Request, MiddlewareConfig}

abbrev pub max_tracked_clients : ℕ
max_tracked_clients = 10000

-- The `HashMap<String, Vec<Instant>>`, one entry for each key.
abbrev pub Limits : Type 0
Limits = List (Str × List ℕ)

unfoldable pub timestamps_of : Str → Limits → List ℕ
timestamps_of key [] = []
timestamps_of key ((k, ts) ∷ m) = if str_eq k key then ts else timestamps_of key m

unfoldable pub contains_key : Str → Limits → Bool
contains_key key [] = false
contains_key key ((k, ts) ∷ m) =
    let rest = contains_key key m in if str_eq k key then true else rest

unfoldable pub put : Str → List ℕ → Limits → Limits
put key ts [] = (key, ts) ∷ []
put key ts ((k, old) ∷ m) = if str_eq k key then (k, ts) ∷ m else (k, old) ∷ put key ts m

-- `timestamps.retain(|&t| now.duration_since(t) <= window)`
unfoldable pub recent : ℕ → ℕ → List ℕ → List ℕ
recent now window ts = retain (λ t. leb (now - t) window) ts

unfoldable pub has_any : List ℕ → Bool
has_any [] = false
has_any (_ ∷ _) = true

unfoldable pub evict : ℕ → ℕ → Limits → Limits
unfolding has_any
evict now window [] = []
evict now window ((k, ts) ∷ m) =
    let rest = evict now window m in
    if has_any (recent now window ts) then (k, recent now window ts) ∷ rest else rest

-- The map after the eviction that a new key may cause.
unfoldable pub make_room : ℕ → ℕ → Str → Limits → Limits
make_room now window key limits =
    if not (contains_key key limits) && leb max_tracked_clients (length limits)
    then evict now window limits
    else limits

-- The answer, true for a request over the limit, and the map afterwards.
unfoldable pub is_rate_limited : Str → ℕ → ℕ → ℕ → Limits → Bool × Limits
is_rate_limited key limit window now limits =
    let room = make_room now window key limits in
    let timestamps = recent now window (timestamps_of key room) in
    if leb limit (length timestamps)
    then (true, put key timestamps room)
    else (false, put key (timestamps ++ now ∷ []) room)

module _ (J : Json) where
  -- `settings.get(name).and_then(|v| v.as_u64())`
  unfoldable pub setting : J.Value → Str → Option ℕ
  setting settings name = elim (J.get settings name) [ none ↦ none | some v ↦ J.as_u64 v ]

  or_else : Option ℕ → ℕ → ℕ
  or_else none d = d
  or_else (some n) d = n

  unfoldable pub client_key : Option Str → Str
  client_key none = text "global"
  client_key (some addr) = addr

  decide : Request → Bool × Limits → Result Request × Limits
  decide request (limited, limits) =
      if limited then (err Error.rate_limited, limits) else (ok request, limits)

  -- `unwrap_or(100) as u32` keeps the low 32 bits.
  unfoldable pub handle_request :
      MiddlewareConfig J.Value → ℕ → Limits → Request → Result Request × Limits
  unfolding or_else client_key decide
  handle_request config now limits request =
      if not config.enabled
      then (ok request, limits)
      else decide request (
          is_rate_limited (client_key request.metadata.remote_addr)
            (or_else (setting config.settings (text "requests_per_window")) 100 % 4294967296)
            (or_else (setting config.settings (text "window_secs")) 60 * 1000000000) now limits)
