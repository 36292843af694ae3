-- ===== src/Gateway/Dispatch/Addressed.antt =====
-- The address that the dispatch passes on to HTTP, GraphQL and gRPC backends.
use iron_babel.Base.{◌≡◌, sym, subst, Bool-cases, inl, inr, some, List, retain, All}
use iron_babel.Text.{Str}
use iron_babel.Error.{Result, ok, err}
use iron_babel.HttpGuard.{Header}
use iron_babel.Config.Types.{
  TransportConfig, http, zmq, graphql, grpc, web_socket, mqtt, amqp, GraphQlTransportConfig,
  RouteConfig,
}
use iron_babel.Json.{Json}
use iron_babel.Gateway.{Incoming, Axum, Backends, is_forwarded_for}
use iron_babel.Gateway.Dispatch.Sent.{
  address_of, IsAddressed, AllAddressed, http_request-address, graphql_request-address,
  grpc_request-address,
}
use iron_babel.Grpc.{encode_grpc_frame}
use iron_babel.Gateway.Dispatch.{forward_path, graphql_encode, Outcome, dispatch}
use iron_babel.Gateway.Dispatch.Calls.{graphql_calls, calls_of, dispatch-calls}

module _ (axum : Axum) (addr : Str) (headers : List Header)
    (named : retain is_forwarded_for headers ≡ address_of addr) where
  graphql_calls-address :
      (cfg : GraphQlTransportConfig) (body : Result Str)
      → AllAddressed addr (graphql_calls cfg headers body)
  graphql_calls-address cfg (ok body) =
      graphql_request-address addr headers named cfg.url body cfg.timeout_secs
  graphql_calls-address cfg (err e) = record { each = tt }

  calls_of-address :
      (J : Json) (path : Str) (req : Incoming) (body : Str) (t : TransportConfig)
      → AllAddressed addr (calls_of axum J path req headers body t)
  calls_of-address J path req body (http cfg) = elim (Bool-cases (axum.is_method req.method)) [
    | inl valid ↦ rw valid (
        http_request-address addr headers named req.method cfg.url
          (forward_path cfg.strip_prefix path req.path) req.query body cfg.timeout_secs)
    | inr invalid ↦ rw invalid (record { each = tt })
  ]
  calls_of-address J path req body (zmq cfg) = record { each = (tt, tt) }
  calls_of-address J path req body (graphql cfg) = graphql_calls-address cfg (graphql_encode J body)
  calls_of-address J path req body (grpc cfg) =
      grpc_request-address addr headers named cfg.url req.path (encode_grpc_frame body)
        cfg.timeout_secs
  calls_of-address J path req body (mqtt cfg) = record { each = (tt, tt) }
  calls_of-address J path req body (amqp cfg) = record { each = (tt, tt) }
  calls_of-address J path req body (web_socket cfg) = record { each = tt }

  -- Each request that the dispatch sends to an HTTP, GraphQL or gRPC backend names the address.
  pub dispatch-address :
      (backends : Backends) (J : Json) (r : RouteConfig) (t : TransportConfig) (req : Incoming)
      (body : Str) (o : Outcome)
      → r.transport ≡ t
      → dispatch axum backends J r req headers body ≡ some o
      → All (IsAddressed addr) o.forwarded
  dispatch-address backends J r t req body o e h =
      subst (All (IsAddressed addr))
        (sym (dispatch-calls axum backends J headers r t req body o e h))
        (calls_of-address J r.path req body t).each
