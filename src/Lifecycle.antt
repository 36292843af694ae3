-- ===== src/Lifecycle.antt =====
-- src/core/gateway.rs: `start` and `stop`. A task is what its handle was spawned for; what a task
-- does is modelled where its function stands.
pub mod Ledger
pub mod Process
use iron_babel.Base.{
  ℕ, ◌+◌, ◌≡◌, Bool, true, false, Option, none, some, List, [], ◌∷◌, ◌++◌, ◌⊎◌, inl, inr, length,
}
use iron_babel.Text.{Str, text, decimal}
use iron_babel.Error.{Error, Checked, ok, err}
use iron_babel.Config.Types.{ListenerConfig}

pub data Task : Type 0 where
  metrics_tick : Task
  listener : ListenerConfig → Task
  server : Task

pub record JoinHandle : Type 0 where
  pub id : ℕ
  pub task : Task

pub record RuntimeHandles : Type 0 where
  pub server_handle : Option JoinHandle
  pub metrics_handle : Option JoinHandle
  pub listener_handles : List JoinHandle
  pub running : Bool

-- The parts of `DefaultGateway` that `start` and `stop` read and change, the tasks that it has
-- spawned, and the handles that the calls of `stop` await, in their orders.
pub record DefaultGateway : Type 0 where
  pub runtime : RuntimeHandles
  pub triggered : Bool
  pub spawned : List JoinHandle
  pub awaited : List JoinHandle

abbrev pub no_handles : RuntimeHandles
no_handles = record {
  server_handle = none;
  metrics_handle = none;
  listener_handles = [];
  running = false;
}

unfoldable pub new : DefaultGateway
new = record { runtime = no_handles; triggered = false; spawned = []; awaited = [] }

unfoldable pub spawn_listeners : ℕ → List ListenerConfig → List JoinHandle
spawn_listeners id [] = []
spawn_listeners id (cfg ∷ listeners) =
    record { id = id; task = Task.listener cfg } ∷ spawn_listeners (id + 1) listeners

-- The tasks of one run, in the order in which they are spawned.
abbrev pub metrics_task : ℕ → JoinHandle
metrics_task id = record { id = id; task = Task.metrics_tick }

abbrev pub server_task : ℕ → List ListenerConfig → JoinHandle
server_task id listeners = record { id = id + 1 + length listeners; task = Task.server }

unfoldable pub spawn_all : List ListenerConfig → DefaultGateway → DefaultGateway
spawn_all listeners g =
    let id = length g.spawned in
    let inbound = spawn_listeners (id + 1) listeners in
    record {
      runtime = record {
        server_handle = some (server_task id listeners);
        metrics_handle = some (metrics_task id);
        listener_handles = g.runtime.listener_handles ++ inbound;
        running = true;
      };
      triggered = false;
      spawned = g.spawned ++ metrics_task id ∷ (inbound ++ server_task id listeners ∷ []);
      awaited = g.awaited;
    }

-- `shutdown.reset()`
unfoldable pub reset : DefaultGateway → DefaultGateway
reset g = record {
  runtime = g.runtime;
  triggered = false;
  spawned = g.spawned;
  awaited = g.awaited;
}

-- `start` by what binding the address gives and whether the gateway is running.
start_if : Str ⊎ Unit {0} → List ListenerConfig → DefaultGateway → Bool → Checked × DefaultGateway
start_if bound listeners g true = (err (Error.unknown (text "Gateway is already running")), g)
start_if (inl e) listeners g false = (err (Error.io e), reset g)
start_if (inr _) listeners g false = (ok tt, spawn_all listeners (reset g))

-- `start` of a gateway with this host, port and listeners; `bind` is `TcpListener::bind`.
unfoldable pub start :
    (Str → Str ⊎ Unit {0})
    → Str
    → ℕ
    → List ListenerConfig
    → DefaultGateway
    → Checked × DefaultGateway
unfolding start_if
start bind host port listeners g =
    start_if (bind (host ++ (text ":" ++ decimal port))) listeners g g.runtime.running

unfoldable pub taken : Option JoinHandle → List JoinHandle
taken none = []
taken (some handle) = handle ∷ []

-- The handles in the order in which `stop` awaits them.
unfoldable pub held : RuntimeHandles → List JoinHandle
held r = taken r.server_handle ++ (taken r.metrics_handle ++ r.listener_handles)

stop_if : DefaultGateway → Bool → DefaultGateway
stop_if g false = g
stop_if g true = record {
  runtime = no_handles;
  triggered = true;
  spawned = g.spawned;
  awaited = g.awaited ++ held g.runtime;
}

unfoldable pub stop : DefaultGateway → DefaultGateway
unfolding stop_if
stop g = stop_if g g.runtime.running

-- The states that calls of `start` and `stop` lead to, whatever binding the address gives.
pub data Reachable (listeners : List ListenerConfig) : DefaultGateway → Type 0 where
  begins : Reachable listeners new
  starts :
      {g : DefaultGateway} (bind : Str → Str ⊎ Unit {0}) (host : Str) (port : ℕ)
      → Reachable listeners g
      → Reachable listeners (start bind host port listeners g).1
  stops : {g : DefaultGateway} → Reachable listeners g → Reachable listeners (stop g)
