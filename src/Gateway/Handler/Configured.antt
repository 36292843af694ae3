-- ===== src/Gateway/Handler/Configured.antt =====
-- Where `handle_request` of src/core/gateway.rs sends a request that the router of src/core/router.rs
-- has a route for.
use iron_babel.Base.{◌≤◌, List, All, length}
use iron_babel.Text.{Str}
use iron_babel.Json.{Json}
use iron_babel.Config.Types.{RouteConfig}
use iron_babel.Router.Choice.{IsChosen}
use iron_babel.Middleware.Chain.{Middleware}
use iron_babel.Gateway.{Forwarded}
use iron_babel.Gateway.Dispatch.Configured.{IsSentTo}

-- The call goes to the target of the route that is chosen for the method and path.
pub record IsRouted (rs : List RouteConfig) (method path : Str) (call : Forwarded) : Type 0 where
  pub to : RouteConfig
  pub chosen : IsChosen rs method path to
  pub sent : IsSentTo to.transport call

-- At most one call, and to such a target.
pub record AtMostRouted (rs : List RouteConfig) (method path : Str) (calls : List Forwarded)
    : Type 0 where
  pub at_most_one : length calls ≤ 1
  pub each : All (IsRouted rs method path) calls
