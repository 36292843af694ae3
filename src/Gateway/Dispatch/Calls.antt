-- ===== src/Gateway/Dispatch/Calls.antt =====
-- The calls of the backends that `dispatch` makes, apart from what becomes of the replies.
use iron_babel.Base.{◌≡◌, refl, subst, Bool-cases, inl, inr, some, List, [], ◌∷◌, if◌then◌else◌}
use iron_babel.Text.{Str, text}
use iron_babel.Error.{Result, Checked, ok, err}
use iron_babel.HttpGuard.{Header}
use iron_babel.Config.Types.{
  TransportConfig, http, zmq, graphql, grpc, web_socket, mqtt, amqp, ZmqTransportConfig, ZmqPattern,
  req_rep, push, pub_sub, GraphQlTransportConfig, HttpTransportConfig, RouteConfig,
}
use iron_babel.Json.{Json}
use iron_babel.Grpc.{encode_grpc_frame}
use iron_babel.Upstream.{Reply, http_request, graphql_request, grpc_request, grpc_proxy}
use iron_babel.Gateway.{Incoming, Axum, Backends, Forwarded}
use iron_babel.Gateway.Dispatch.{
  forward_path, graphql_encode, sent_of, Outcome, outcome, relayed, accepted, replied, unframed,
  grpc_relayed, graphql_checked, handle_http, handle_zmq, handle_mqtt, handle_amqp, handle_grpc,
  handle_graphql, dispatch,
}

-- What is sent of a GraphQL request, its check's result at hand.
abbrev pub graphql_calls : GraphQlTransportConfig → List Header → Result Str → List Forwarded
graphql_calls cfg headers (ok body) =
    sent_of (graphql_request cfg.url headers body cfg.timeout_secs)
graphql_calls cfg headers (err e) = []

module _ (axum : Axum) (J : Json) (path : Str) (req : Incoming) (headers : List Header)
    (body : Str) where
  -- The calls for a request on a route with this path and transport.
  abbrev pub calls_of : TransportConfig → List Forwarded
  calls_of (http cfg) =
      if axum.is_method req.method
      then sent_of (
          http_request req.method cfg.url (forward_path cfg.strip_prefix path req.path) req.query
            headers body cfg.timeout_secs)
      else []
  calls_of (zmq cfg) = Forwarded.zmq_sent cfg.address body ∷ []
  calls_of (graphql cfg) = graphql_calls cfg headers (graphql_encode J body)
  calls_of (grpc cfg) =
      sent_of (grpc_request cfg.url req.path headers (encode_grpc_frame body) cfg.timeout_secs)
  calls_of (mqtt cfg) = Forwarded.mqtt_sent cfg body ∷ []
  calls_of (amqp cfg) = Forwarded.amqp_sent cfg body ∷ []
  calls_of (web_socket cfg) = []

module _ (axum : Axum) (backends : Backends) where
  relayed-calls :
      (target : Str) (calls : List Forwarded) (result : Result Reply)
      → (relayed axum backends target calls result).forwarded ≡ calls
  unfolding relayed outcome
  relayed-calls target calls (ok reply) = refl
  relayed-calls target calls (err e) = refl

  unframed-calls :
      (target : Str) (calls : List Forwarded) (reply : Reply) (body : Result Str)
      → (unframed axum backends target calls reply body).forwarded ≡ calls
  unfolding unframed outcome
  unframed-calls target calls reply (ok body) = refl
  unframed-calls target calls reply (err e) = refl

  grpc_relayed-calls :
      (target : Str) (calls : List Forwarded) (result : Result Reply)
      → (grpc_relayed axum backends target calls result).forwarded ≡ calls
  unfolding grpc_relayed outcome
  grpc_relayed-calls target calls (ok reply) = unframed-calls target calls reply _
  grpc_relayed-calls target calls (err e) = refl

  accepted-calls :
      (label target : Str) (calls : List Forwarded) (result : Checked)
      → (accepted axum backends label target calls result).forwarded ≡ calls
  unfolding accepted outcome
  accepted-calls label target calls (ok u) = refl
  accepted-calls label target calls (err e) = refl

  replied-calls :
      (target : Str) (calls : List Forwarded) (result : Result Str)
      → (replied axum backends target calls result).forwarded ≡ calls
  unfolding replied outcome
  replied-calls target calls (ok body) = refl
  replied-calls target calls (err e) = refl

  handle_zmq-calls :
      (cfg : ZmqTransportConfig) (pattern : ZmqPattern) (body : Str)
      → cfg.zmq_pattern ≡ pattern
      → (handle_zmq axum backends cfg body).forwarded ≡ Forwarded.zmq_sent cfg.address body ∷ []
  unfolding handle_zmq
  handle_zmq-calls cfg req_rep body e = rw (e, handle_zmq) (replied-calls cfg.address _ _)
  handle_zmq-calls cfg push body e =
      rw (e, handle_zmq) (accepted-calls (text "ZMQ error: ") cfg.address _ _)
  handle_zmq-calls cfg pub_sub body e =
      rw (e, handle_zmq) (accepted-calls (text "ZMQ error: ") cfg.address _ _)

  module _ (J : Json) (headers : List Header) where
    graphql_checked-calls :
        (cfg : GraphQlTransportConfig) (body : Result Str)
        → (graphql_checked axum backends J cfg headers body).forwarded
          ≡ graphql_calls cfg headers body
    unfolding graphql_checked outcome
    graphql_checked-calls cfg (ok body) = relayed-calls cfg.url _ _
    graphql_checked-calls cfg (err e) = refl

    handle_http-calls :
        (cfg : HttpTransportConfig) (path : Str) (req : Incoming) (body : Str)
        → (handle_http axum backends cfg path req headers body).forwarded
          ≡ calls_of axum J path req headers body (http cfg)
    unfolding handle_http outcome
    handle_http-calls cfg path req body = elim (Bool-cases (axum.is_method req.method)) [
      | inl valid ↦ rw valid (relayed-calls cfg.url _ _)
      | inr invalid ↦ rw invalid refl
    ]

    this_one :
        (made o : Outcome) (calls : List Forwarded)
        → some made ≡ some o
        → made.forwarded ≡ calls
        → o.forwarded ≡ calls
    this_one made o calls e h =
        let same : made ≡ o = cc in subst (λ (x : Outcome). x.forwarded ≡ calls) same h

    -- Whatever the replies, the dispatch makes these calls.
    pub dispatch-calls :
        (r : RouteConfig) (t : TransportConfig) (req : Incoming) (body : Str) (o : Outcome)
        → r.transport ≡ t
        → dispatch axum backends J r req headers body ≡ some o
        → o.forwarded ≡ calls_of axum J r.path req headers body t
    unfolding dispatch handle_graphql handle_grpc handle_mqtt handle_amqp
    dispatch-calls r (http cfg) req body o e h =
        this_one _ o _ (rw (e, dispatch) at h) (handle_http-calls cfg r.path req body)
    dispatch-calls r (zmq cfg) req body o e h =
        this_one _ o _ (rw (e, dispatch) at h) (handle_zmq-calls cfg cfg.zmq_pattern body refl)
    dispatch-calls r (graphql cfg) req body o e h =
        this_one _ o _ (rw (e, dispatch) at h) (graphql_checked-calls cfg _)
    dispatch-calls r (grpc cfg) req body o e h = this_one _ o _ (rw (e, dispatch) at h) (
        grpc_relayed-calls cfg.url _ (
          grpc_proxy backends.send cfg.url req.path headers (encode_grpc_frame body)
            cfg.timeout_secs))
    dispatch-calls r (mqtt cfg) req body o e h =
        this_one _ o _ (rw (e, dispatch) at h)
          (accepted-calls (text "MQTT error: ") cfg.broker_url _ (backends.mqtt_publish cfg body))
    dispatch-calls r (amqp cfg) req body o e h =
        this_one _ o _ (rw (e, dispatch) at h)
          (accepted-calls (text "AMQP error: ") cfg.broker_url _ (backends.amqp_publish cfg body))
    dispatch-calls r (web_socket cfg) req body o e h = absurd (cc (rw (e, dispatch) at h))
