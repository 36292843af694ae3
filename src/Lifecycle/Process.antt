-- ===== src/Lifecycle/Process.antt =====
-- `create_gateway` of src/core/gateway.rs and src/main.rs: from the configuration to a gateway that
-- runs, and to its end.
use iron_babel.Base.{ℕ, ◌≡◌, ◌⊎◌, true, List, ◌++◌, map, retain}
use mathlib.Core.List.{Perm}
use iron_babel.Text.{Str}
use iron_babel.Error.{Result, Checked, ok, ◌>>=◌}
use iron_babel.Config.Types.{GatewayConfig, ListenerConfig}
use iron_babel.Json.{Json}
use iron_babel.Router.{Router}
use iron_babel.Router
use iron_babel.Lifecycle
use iron_babel.Metrics.{MetricsStore}
use iron_babel.Metrics
use iron_babel.Middleware.Chain.{Middleware, build_middleware_chain}
use iron_babel.Admin.{AdminConfigStore}
use iron_babel.Admin
use iron_babel.Protocols.{Protocol, build_protocols, name}
use iron_babel.Lifecycle.{DefaultGateway, JoinHandle, start, stop, no_handles, Reachable}
use iron_babel.Lifecycle.Ledger.{tasks_for}

-- The gateway's parts, and its runtime.
pub record Assembled (V : Type 0) : Type 0 where
  pub host : Str
  pub port : ℕ
  pub protocols : List Protocol
  pub router : Router
  pub metrics : MetricsStore
  pub listeners : List ListenerConfig
  pub middleware : List (Middleware V)
  pub config_store : AdminConfigStore V
  pub gateway : DefaultGateway

module _ (J : Json) where
  abbrev pub assembled : GatewayConfig J.Value → List Protocol → Assembled J.Value
  assembled config protocols = record {
    host = config.host;
    port = config.port;
    protocols = protocols;
    router = Router.new config.routes;
    metrics = Metrics.new;
    listeners = config.listeners;
    middleware = build_middleware_chain J config.middleware;
    config_store = Admin.new config;
    gateway = Lifecycle.new;
  }

  unfoldable pub create_gateway : GatewayConfig J.Value → Result (Assembled J.Value)
  create_gateway config = do
    protocols ← build_protocols config.protocols
    ok (assembled config protocols)

  -- What the process meets: how logging starts, the configuration, whether the address can be bound,
  -- and how the wait for ctrl-c ends.
  pub record World : Type 0 where
    pub init : Checked
    pub load : Result (GatewayConfig J.Value)
    pub bind : Str → Str ⊎ Unit {0}
    pub ctrl_c : Checked

  -- `start` as a statement with `?`.
  started : World → Assembled J.Value → Result DefaultGateway
  started w g =
      let (result, running) = start w.bind g.host g.port g.listeners g.gateway in
      result >>= λ _. ok running

  -- `main`: the gateway as it ends. `stop` is given 30 seconds to await what it awaits.
  unfoldable pub main : World → Result DefaultGateway
  unfolding started
  main w = do
    _ ← w.init
    config ← w.load
    g ← create_gateway config
    running ← started w g
    _ ← w.ctrl_c
    ok (stop running)

-- What a call of `start` that ends well leaves.
record IsRunning (listeners : List ListenerConfig) (g g' : DefaultGateway) : Type 0 where
  is_running : g'.runtime.running ≡ true
  tasks : map (λ h. h.task) g'.spawned ≡ map (λ h. h.task) g.spawned ++ tasks_for listeners

-- How the gateway of this configuration ends: signalled, with no handle left, each task of the
-- configuration spawned, and each spawned task awaited exactly once.
pub record IsEnded {V : Type 0} (config : GatewayConfig V) (g : DefaultGateway) : Type 0 where
  pub signalled : g.triggered ≡ true
  pub at_rest : g.runtime ≡ no_handles
  pub tasks : map (λ h. h.task) g.spawned ≡ tasks_for config.listeners
  pub all_awaited : Perm g.spawned g.awaited

module _ (J : Json) where
  -- The enabled protocols of the configuration are supported.
  abbrev pub IsSupported : GatewayConfig J.Value → Type 0
  IsSupported config =
      (ps : List Protocol) × (map name ps
        ≡ map (λ c. c.name) (retain (λ c. c.enabled) config.protocols))
