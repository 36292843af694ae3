-- ===== src/Gateway/Dispatch/Told.antt =====
-- The status that is recorded of a dispatch and the status of its response.
use iron_babel.Base.{
  ℕ, ◌≡◌, ◌≤◌, refl, subst, Bool-cases, inl, inr, Option-cases, none, some, List, [], ◌∷◌, arith,
}
use iron_babel.Text.{Str, text}
use iron_babel.Error.{Result, Checked, ok, err}
use iron_babel.HttpGuard.{Header}
use iron_babel.Config.Types.{
  TransportConfig, http, zmq, graphql, grpc, web_socket, mqtt, amqp, HttpTransportConfig,
  ZmqTransportConfig, ZmqPattern, req_rep, push, pub_sub, GraphQlTransportConfig, RouteConfig,
}
use iron_babel.Json.{Json}
use iron_babel.Grpc.{encode_grpc_frame}
use iron_babel.Upstream.{Reply, grpc_request, grpc_proxy}
use iron_babel.Gateway.{HttpResponse, Incoming, Axum, AxumLaws, Backends, Forwarded}
use iron_babel.Gateway.Dispatch.{
  Outcome, outcome, sent_of, built, relayed, accepted, replied, unframed, grpc_relayed,
  graphql_checked, handle_http, handle_zmq, handle_mqtt, handle_amqp, handle_grpc, handle_graphql,
  dispatch,
}

-- The response has the status, which is a status code, or it could not be built with the status, and
-- has 500.
pub data Told (axum : Axum) (status : ℕ) (response : HttpResponse) : Type 0 where
  agrees : response.status ≡ status → 100 ≤ status → status ≤ 999 → Told axum status response
  unbuilt :
      (headers : List Header) (body : Str)
      → axum.builder status headers body ≡ none
      → response.status ≡ 500
      → Told axum status response

-- Of an outcome.
pub record IsTold (axum : Axum) (o : Outcome) : Type 0 where
  pub told : Told axum o.status o.response

module _ (axum : Axum) (laws : AxumLaws axum) where
  pub plain-Told :
      (status : ℕ) (headers : List Header) (body : Str)
      → 100 ≤ status
      → status ≤ 999
      → Told axum status (axum.into_response status headers body)
  plain-Told status headers body low high =
      agrees (laws.into_response_status status headers body) low high

  module _ (backends : Backends) where
    built-Told :
        (status : ℕ) (headers : List Header) (body : Str)
        → Told axum status (built axum backends status headers body)
    unfolding built
    built-Told status headers body = elim (Option-cases (axum.builder status headers body)) [
      | inl refused ↦
          rw (refused, built) (unbuilt headers body refused (laws.into_response_status 500 [] []))
      | inr (response, made) ↦
          let (same, low, high) = laws.builder_status status headers body response made in
          rw (made, built) (agrees same low high)
    ]

    relayed-IsTold :
        (target : Str) (calls : List Forwarded) (result : Result Reply)
        → IsTold axum (relayed axum backends target calls result)
    unfolding relayed outcome
    relayed-IsTold target calls (ok reply) = record {
      told = built-Told reply.status reply.headers reply.body;
    }
    relayed-IsTold target calls (err e) = record {
      told = plain-Told 502 _ _ (omega arith) (omega arith);
    }

    unframed-IsTold :
        (target : Str) (calls : List Forwarded) (reply : Reply) (body : Result Str)
        → IsTold axum (unframed axum backends target calls reply body)
    unfolding unframed outcome
    unframed-IsTold target calls reply (ok body) = record {
      told = built-Told reply.status reply.headers body;
    }
    unframed-IsTold target calls reply (err e) = record {
      told = plain-Told 502 _ _ (omega arith) (omega arith);
    }

    grpc_relayed-IsTold :
        (target : Str) (calls : List Forwarded) (result : Result Reply)
        → IsTold axum (grpc_relayed axum backends target calls result)
    unfolding grpc_relayed outcome
    grpc_relayed-IsTold target calls (ok reply) = unframed-IsTold target calls reply _
    grpc_relayed-IsTold target calls (err e) = record {
      told = plain-Told 502 _ _ (omega arith) (omega arith);
    }

    accepted-IsTold :
        (label target : Str) (calls : List Forwarded) (result : Checked)
        → IsTold axum (accepted axum backends label target calls result)
    unfolding accepted outcome
    accepted-IsTold label target calls (ok u) = record {
      told = plain-Told 202 _ _ (omega arith) (omega arith);
    }
    accepted-IsTold label target calls (err e) = record {
      told = plain-Told 502 _ _ (omega arith) (omega arith);
    }

    replied-IsTold :
        (target : Str) (calls : List Forwarded) (result : Result Str)
        → IsTold axum (replied axum backends target calls result)
    unfolding replied outcome
    replied-IsTold target calls (ok body) = record { told = built-Told 200 _ body }
    replied-IsTold target calls (err e) = record {
      told = plain-Told 502 _ _ (omega arith) (omega arith);
    }

    handle_http-IsTold :
        (cfg : HttpTransportConfig) (path : Str) (req : Incoming) (headers : List Header)
        (body : Str)
        → IsTold axum (handle_http axum backends cfg path req headers body)
    unfolding handle_http outcome
    handle_http-IsTold cfg path req headers body = elim (Bool-cases (axum.is_method req.method)) [
      | inl valid ↦ rw valid (relayed-IsTold cfg.url _ _)
      | inr invalid ↦ rw invalid (record { told = plain-Told 405 _ _ (omega arith) (omega arith) })
    ]

    handle_zmq-IsTold :
        (cfg : ZmqTransportConfig) (pattern : ZmqPattern) (body : Str)
        → cfg.zmq_pattern ≡ pattern
        → IsTold axum (handle_zmq axum backends cfg body)
    unfolding handle_zmq
    handle_zmq-IsTold cfg req_rep body e =
        rw (e, handle_zmq)
          (replied-IsTold cfg.address (Forwarded.zmq_sent cfg.address body ∷ [])
            (backends.forward_req_rep cfg.address body cfg.timeout_secs))
    handle_zmq-IsTold cfg push body e =
        rw (e, handle_zmq)
          (accepted-IsTold (text "ZMQ error: ") cfg.address
            (Forwarded.zmq_sent cfg.address body ∷ []) (backends.forward_push cfg.address body))
    handle_zmq-IsTold cfg pub_sub body e =
        rw (e, handle_zmq)
          (accepted-IsTold (text "ZMQ error: ") cfg.address
            (Forwarded.zmq_sent cfg.address body ∷ [])
            (backends.forward_pub cfg.address body cfg.topic))

    graphql_checked-IsTold :
        (J : Json) (cfg : GraphQlTransportConfig) (headers : List Header) (body : Result Str)
        → IsTold axum (graphql_checked axum backends J cfg headers body)
    unfolding graphql_checked outcome
    graphql_checked-IsTold J cfg headers (ok body) = relayed-IsTold cfg.url _ _
    graphql_checked-IsTold J cfg headers (err e) = record {
      told = plain-Told 400 _ _ (omega arith) (omega arith);
    }

    this_one :
        (made o : Outcome) → some made ≡ some o → IsTold axum made → Told axum o.status o.response
    this_one made o e h = let same : made ≡ o = cc in (subst (λ x. IsTold axum x) same h).told

    pub dispatch-Told :
        (J : Json) (r : RouteConfig) (t : TransportConfig) (req : Incoming) (headers : List Header)
        (body : Str) (o : Outcome)
        → r.transport ≡ t
        → dispatch axum backends J r req headers body ≡ some o
        → Told axum o.status o.response
    unfolding dispatch handle_graphql handle_grpc handle_mqtt handle_amqp
    dispatch-Told J r (http cfg) req headers body o e h =
        this_one _ o (rw (e, dispatch) at h) (handle_http-IsTold cfg r.path req headers body)
    dispatch-Told J r (zmq cfg) req headers body o e h =
        this_one _ o (rw (e, dispatch) at h) (handle_zmq-IsTold cfg cfg.zmq_pattern body refl)
    dispatch-Told J r (graphql cfg) req headers body o e h =
        this_one _ o (rw (e, dispatch) at h) (graphql_checked-IsTold J cfg headers _)
    dispatch-Told J r (grpc cfg) req headers body o e h = this_one _ o (rw (e, dispatch) at h) (
        grpc_relayed-IsTold cfg.url
          (sent_of
            (grpc_request cfg.url req.path headers (encode_grpc_frame body) cfg.timeout_secs))
          (grpc_proxy backends.send cfg.url req.path headers (encode_grpc_frame body)
            cfg.timeout_secs))
    dispatch-Told J r (mqtt cfg) req headers body o e h =
        this_one _ o (rw (e, dispatch) at h)
          (accepted-IsTold (text "MQTT error: ") cfg.broker_url _ (backends.mqtt_publish cfg body))
    dispatch-Told J r (amqp cfg) req headers body o e h =
        this_one _ o (rw (e, dispatch) at h)
          (accepted-IsTold (text "AMQP error: ") cfg.broker_url _ (backends.amqp_publish cfg body))
    dispatch-Told J r (web_socket cfg) req headers body o e h = absurd (cc (rw (e, dispatch) at h))
