-- ===== src/Gateway/Dispatch/Configured.antt =====
-- Where the dispatch sends a request: to the target of the route's transport.
use iron_babel.Base.{
  ◌≡◌, ◌≤◌, refl, sym, subst, Bool-cases, inl, inr, Option, none, some, List, [], ◌∷◌, ◌++◌, All,
  length, arith,
}
use iron_babel.Text.{Str, text, trim_end_byte}
use iron_babel.Error.{Result, ok, err}
use iron_babel.HttpGuard.{Header}
use iron_babel.HttpGuard.Safety.{IsSafePath}
use iron_babel.Config.Types.{
  TransportConfig, http, zmq, graphql, grpc, web_socket, mqtt, amqp, GraphQlTransportConfig,
  RouteConfig,
}
use iron_babel.Json.{Json}
use iron_babel.Grpc.{encode_grpc_frame}
use iron_babel.Upstream.{UpstreamRequest}
use iron_babel.Upstream.Requests.{upstream_url, http_request-Carries, http_request-ok_iff}
use iron_babel.Upstream.Requests.Framed.{grpc_request-Carries, graphql_request-url}
use iron_babel.Gateway.{Incoming, Axum, Backends, Forwarded}
use iron_babel.Gateway.Dispatch.{forward_path, graphql_encode, sent_of, Outcome, dispatch}
use iron_babel.Gateway.Dispatch.Calls.{graphql_calls, calls_of, dispatch-calls}

-- The URL is the base without the slashes at its end, then a slash, then anything.
abbrev pub IsUnder : Str → Str → Type 0
IsUnder base url = (rest : Str) × (url ≡ trim_end_byte b'/' base ++ b'/' ∷ rest)

-- The call goes to the target that the transport configures.
abbrev pub IsSentTo : TransportConfig → Forwarded → Type 0
IsSentTo (http cfg) (Forwarded.http_sent r) = IsUnder cfg.url r.url
IsSentTo (graphql cfg) (Forwarded.http_sent r) = r.url ≡ cfg.url
IsSentTo (grpc cfg) (Forwarded.http_sent r) = IsUnder cfg.url r.url
IsSentTo (zmq cfg) (Forwarded.zmq_sent address body) = address ≡ cfg.address
IsSentTo (mqtt cfg) (Forwarded.mqtt_sent used body) = used ≡ cfg
IsSentTo (amqp cfg) (Forwarded.amqp_sent used body) = used ≡ cfg
IsSentTo (web_socket cfg) (Forwarded.web_socket_opened url) = url ≡ cfg.url
IsSentTo _ _ = ⊥

-- At most one call, and to that target.
pub record AtMostTo (t : TransportConfig) (calls : List Forwarded) : Type 0 where
  pub at_most_one : length calls ≤ 1
  pub each : All (IsSentTo t) calls

AtMostTo-nothing : (t : TransportConfig) → AtMostTo t []
AtMostTo-nothing t = record { at_most_one = omega arith; each = tt }

AtMostTo-one : (t : TransportConfig) (call : Forwarded) → IsSentTo t call → AtMostTo t (call ∷ [])
AtMostTo-one t call h = record { at_most_one = omega arith; each = (h, tt) }

upstream_url-IsUnder :
    (base path : Str) (query : Option Str)
    → IsSafePath path
    → IsUnder base (upstream_url base path query)
upstream_url-IsUnder base path none ((rest, e), visible) = (rest, rw e refl)
upstream_url-IsUnder base path (some q) ((rest, e), visible) = (rest ++ (text "?" ++ q), rw e refl)

sent_of-AtMostTo :
    (t : TransportConfig) (m : Result UpstreamRequest)
    → ((req : UpstreamRequest) → m ≡ ok req → IsSentTo t (Forwarded.http_sent req))
    → AtMostTo t (sent_of m)
unfolding sent_of
sent_of-AtMostTo t (ok req) h = AtMostTo-one t _ (h req refl)
sent_of-AtMostTo t (err e) h = AtMostTo-nothing t

module _ (axum : Axum) (headers : List Header) where
  graphql_calls-AtMostTo :
      (cfg : GraphQlTransportConfig) (body : Result Str)
      → AtMostTo (graphql cfg) (graphql_calls cfg headers body)
  graphql_calls-AtMostTo cfg (ok body) =
      sent_of-AtMostTo (graphql cfg) _ (graphql_request-url cfg.url body headers cfg.timeout_secs)
  graphql_calls-AtMostTo cfg (err e) = AtMostTo-nothing (graphql cfg)

  calls_of-AtMostTo :
      (J : Json) (path : Str) (req : Incoming) (body : Str) (t : TransportConfig)
      → AtMostTo t (calls_of axum J path req headers body t)
  calls_of-AtMostTo J path req body (http cfg) = elim (Bool-cases (axum.is_method req.method)) [
    | inl valid ↦ rw valid (
        sent_of-AtMostTo (http cfg) _ (λ sent made.
          let there = forward_path cfg.strip_prefix path req.path in
          let carries =
            http_request-Carries req.method cfg.url there req.query headers body cfg.timeout_secs
              sent made in
          let fit =
            (http_request-ok_iff req.method cfg.url there req.query headers body cfg.timeout_secs).0
              (sent, made) in
          subst (IsUnder cfg.url) (sym carries.url_is)
            (upstream_url-IsUnder cfg.url there req.query fit.safe_path)))
    | inr invalid ↦ rw invalid (AtMostTo-nothing (http cfg))
  ]
  calls_of-AtMostTo J path req body (zmq cfg) = AtMostTo-one (zmq cfg) _ refl
  calls_of-AtMostTo J path req body (graphql cfg) =
      graphql_calls-AtMostTo cfg (graphql_encode J body)
  calls_of-AtMostTo J path req body (grpc cfg) = sent_of-AtMostTo (grpc cfg) _ (λ sent made.
      let (fit, carries) =
        grpc_request-Carries cfg.url req.path headers (encode_grpc_frame body) cfg.timeout_secs sent
          made in
      subst (IsUnder cfg.url) (sym carries.url_is)
        (upstream_url-IsUnder cfg.url req.path none fit.safe_path))
  calls_of-AtMostTo J path req body (mqtt cfg) = AtMostTo-one (mqtt cfg) _ refl
  calls_of-AtMostTo J path req body (amqp cfg) = AtMostTo-one (amqp cfg) _ refl
  calls_of-AtMostTo J path req body (web_socket cfg) = AtMostTo-nothing (web_socket cfg)

  -- The dispatch makes at most one call, to the target of the route's transport.
  pub dispatch-AtMostTo :
      (backends : Backends) (J : Json) (r : RouteConfig) (req : Incoming) (body : Str) (o : Outcome)
      → dispatch axum backends J r req headers body ≡ some o
      → AtMostTo r.transport o.forwarded
  dispatch-AtMostTo backends J r req body o h =
      subst (AtMostTo r.transport)
        (sym (dispatch-calls axum backends J headers r r.transport req body o refl h))
        (calls_of-AtMostTo J r.path req body r.transport)
