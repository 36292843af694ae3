-- ===== src/LoadGen.antt =====
-- src/bin/load_gen.rs: the arguments, the routes, the workers' schedule and the mock backend. Floats
-- and the hash behind `frand` are parameters.
pub mod Pump
pub mod Schedule
use Prim.Native.Nat.{max}
use iron_babel.Base.{
  ℕ, ◌+◌, ◌*◌, ◌/◌, ◌%◌, ◌^◌, Bool, true, false, ◌&&◌, Option, none, some, List, [], ◌∷◌, ◌++◌, ◌⊎◌,
  inl, inr, min, leb, ltb, if◌then◌else◌, length, drop, get_or,
}
use iron_babel.Text.{Str, text, str_eq, parse_u64}
use iron_babel.HttpGuard.{Header}
use iron_babel.Upstream.{UpstreamResponse}
use iron_babel.Metrics.{add_u64}

pub record Floats : Type 1 where
  pub Float : Type 0
  pub parse : Str → Option Float
  -- The literals 0.10 and 0.05.
  pub tenth : Float
  pub twentieth : Float
  pub less : Float → Float → Bool
  pub frand : ℕ → Float

pub record Config (F : Floats) : Type 0 where
  pub gateway : Str
  pub rps : ℕ
  pub error_rate : F.Float
  pub slow_rate : F.Float
  pub include_mqtt : Bool
  pub include_amqp : Bool

pub record Route : Type 0 where
  pub method : Str
  pub path : Str
  pub body : Option Str

abbrev plain : Str → Str → Route
plain method path = record { method = method; path = path; body = none }

abbrev with_body : Str → Str → Str → Route
with_body method path body = record { method = method; path = path; body = some body }

unfoldable pub base_routes : List Route
unfolding text
base_routes =
    plain (text "GET") (text "/api/v1/users")
    ∷ plain (text "GET") (text "/api/v1/products")
    ∷ with_body (text "POST") (text "/api/v1/orders") (text "{\"item\":\"widget\",\"qty\":3}")
    ∷ plain (text "GET") (text "/api/v1/items/42")
    ∷ with_body (text "PUT") (text "/api/v1/items/42") (text "{\"name\":\"updated\"}")
    ∷ plain (text "DELETE") (text "/api/v1/items/42")
    ∷ plain (text "GET") (text "/health")
    ∷ plain (text "GET") (text "/api/status")
    ∷ with_body (text "POST") (text "/api/events") (text "{\"event\":\"click\",\"user\":1}")
    ∷ plain (text "GET") (text "/nonexistent")
    ∷ []

unfoldable pub mqtt_routes : List Route
mqtt_routes =
    with_body (text "POST") (text "/mqtt/events")
      (text "{\"event\":\"device.ping\",\"device_id\":\"sim-001\",\"temperature_c\":21.4}")
    ∷ []

unfoldable pub amqp_routes : List Route
amqp_routes =
    with_body (text "POST") (text "/amqp/events")
      (text "{\"event\":\"job.created\",\"job_id\":\"job-001\",\"priority\":\"normal\"}")
    ∷ []

-- The product saturates at the largest `u64`.
unfoldable pub stagger_ms : ℕ → ℕ → ℕ
stagger_ms rps worker_id = min (1000 * worker_id) 18446744073709551615 / max rps 1

-- The number of a worker's next request.
unfoldable pub next_seq : ℕ → ℕ → ℕ
next_seq rps seq = add_u64 seq (max rps 1)

-- `routes[(seq as usize) % routes.len()]`; the list is never empty.
unfoldable pub route_at : List Route → ℕ → Route
route_at routes seq = get_or routes (seq % length routes) (plain [] [])

-- A request of a worker: its method, URL, headers and body.
unfoldable pub request_of : Str → Route → Str × Str × List Header × Option Str
request_of gateway route = elim (route.body) [
  | none ↦ (route.method, gateway ++ route.path, [], none)
  | some b ↦ (
    route.method,
    gateway ++ route.path,
    (text "Content-Type", text "application/json") ∷ [],
    some b,
  )
]

pub record Counters : Type 0 where
  pub sent : ℕ
  pub errors : ℕ

-- A server error or no answer counts as an error.
unfoldable pub count_error : Str ⊎ UpstreamResponse → Counters → Counters
count_error (inl e) c = record { sent = c.sent; errors = add_u64 c.errors 1 }
count_error (inr response) c = record {
  sent = c.sent;
  errors =
      if leb 500 response.status && ltb response.status 600 then add_u64 c.errors 1 else c.errors;
}

-- Each request counts as sent.
unfoldable pub count_sent : Counters → Counters
count_sent c = record { sent = add_u64 c.sent 1; errors = c.errors }

module _ (F : Floats) where
  unfoldable pub build_routes : Config F → List Route
  build_routes cfg =
      base_routes
      ++ ((if cfg.include_mqtt then mqtt_routes else [])
          ++ (if cfg.include_amqp then amqp_routes else []))

  abbrev pub default_config : Config F
  default_config = record {
    gateway = text "http://127.0.0.1:8080";
    rps = 10;
    error_rate = F.tenth;
    slow_rate = F.twentieth;
    include_mqtt = false;
    include_amqp = false;
  }

  or_default : {A : Type 0} → A → Option A → A
  or_default d none = d
  or_default d (some a) = a

  with_gateway : Str → Config F → Config F
  with_gateway v c = record {
    gateway = v;
    rps = c.rps;
    error_rate = c.error_rate;
    slow_rate = c.slow_rate;
    include_mqtt = c.include_mqtt;
    include_amqp = c.include_amqp;
  }

  with_rates : ℕ → F.Float → F.Float → Config F → Config F
  with_rates rps error_rate slow_rate c = record {
    gateway = c.gateway;
    rps = rps;
    error_rate = error_rate;
    slow_rate = slow_rate;
    include_mqtt = c.include_mqtt;
    include_amqp = c.include_amqp;
  }

  with_flags : Bool → Bool → Config F → Config F
  with_flags mqtt amqp c = record {
    gateway = c.gateway;
    rps = c.rps;
    error_rate = c.error_rate;
    slow_rate = c.slow_rate;
    include_mqtt = mqtt;
    include_amqp = amqp;
  }

  -- The arms of the `match` that take no value.
  set_flag : Str → Config F → Config F
  set_flag arg c =
      if str_eq arg (text "--include-mqtt")
      then with_flags true c.include_amqp c
      else if str_eq arg (text "--include-amqp")
      then with_flags c.include_mqtt true c
      else c

  -- The arms that take the value `v`; none when the argument is not one of them.
  set_value : Str → Str → Config F → Option (Config F)
  set_value arg v c =
      if str_eq arg (text "--gateway")
      then some (with_gateway v c)
      else if str_eq arg (text "--rps")
      then some (with_rates (or_default 10 (parse_u64 v)) c.error_rate c.slow_rate c)
      else if str_eq arg (text "--error-rate")
      then some (with_rates c.rps (or_default F.tenth (F.parse v)) c.slow_rate c)
      else if str_eq arg (text "--slow-rate")
      then some (with_rates c.rps c.error_rate (or_default F.twentieth (F.parse v)) c)
      else none

  -- The `while` loop from the argument at `i` on.
  unfoldable pub parse_from : List Str → Config F → Config F
  unfolding set_flag set_value with_gateway with_rates with_flags or_default
  parse_from [] c = c
  parse_from (arg ∷ []) c = set_flag arg c
  parse_from (arg ∷ v ∷ args) c = elim (set_value arg v c) [
    | some changed ↦ parse_from args changed
    | none ↦ parse_from (v ∷ args) (set_flag arg c)
  ]

  -- The program's name comes first.
  unfoldable pub parse_args_from : List Str → Config F
  parse_args_from args = parse_from (drop 1 args) default_config

  -- The mock backend's answer to its request number `n`: whether it is slow, and its status.
  unfoldable pub mock_handler : F.Float → F.Float → ℕ → Bool × ℕ
  mock_handler slow_rate error_rate n = (
    F.less (F.frand (n * 7 % 2 ^ 64)) slow_rate,
    if F.less (F.frand ((n * 13 % 2 ^ 64 + 1) % 2 ^ 64)) error_rate then 500 else 200,
  )
