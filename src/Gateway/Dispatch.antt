-- ===== src/Gateway/Dispatch.antt =====
-- src/core/gateway.rs and src/protocols/graphql.rs: the dispatch on the transport, one function per
-- helper of the source. Each gives the one sample that it records, the response before it is
-- finalized, and the calls of the backends.
pub mod Transports
pub mod Sent
pub mod Calls
pub mod Addressed
pub mod Configured
pub mod Told
use iron_babel.Base.{
  ℕ, Bool, true, false, not, ◌&&◌, Option, none, some, List, [], ◌∷◌, ◌++◌, leb, ltb, if◌then◌else◌,
  ◌⊎◌, inl, inr,
}
use iron_babel.Text.{Str, text, is_empty, strip_prefix, starts_with}
use iron_babel.Error.{Error, Result, Checked, ok, err, ◌>>◌, reject_if, to_string}
use iron_babel.HttpGuard.{Header}
use iron_babel.Config.Types.{
  http, zmq, graphql, grpc, web_socket, mqtt, amqp, HttpTransportConfig, ZmqTransportConfig,
  req_rep, push, pub_sub, GraphQlTransportConfig, GrpcTransportConfig, MqttTransportConfig,
  AmqpTransportConfig, RouteConfig,
}
use iron_babel.Json.{Json}
use iron_babel.Grpc.{encode_grpc_frame, decode_grpc_frames}
use iron_babel.Upstream.{
  UpstreamRequest, Reply, http_request, graphql_request, grpc_request, http_proxy, graphql_proxy,
  grpc_proxy,
}
use iron_babel.Gateway.{HttpResponse, Incoming, Axum, Backends, Forwarded}

pub record Outcome : Type 0 where
  pub target : Str
  pub status : ℕ
  pub error : Option Str
  pub response : HttpResponse
  pub forwarded : List Forwarded

module _ (J : Json) where
  is_present : Option J.Value → Bool
  is_present none = false
  is_present (some _) = true

  check_object : J.Value → Checked
  check_object value = do
    reject_if (not (J.is_object value))
        (Error.graphql (text "GraphQL request must be a JSON object"))
    reject_if (not (is_present (J.get value (text "query"))))
        (Error.graphql (text "GraphQL request must contain a 'query' field"))

  unfoldable pub check_json : Str ⊎ J.Value → Checked
  unfolding check_object is_present
  check_json (inl e) = err (Error.graphql (text "Invalid JSON: " ++ e))
  check_json (inr value) = check_object value

  -- `GraphQLProtocol::encode`
  unfoldable pub graphql_encode : Str → Result Str
  unfolding check_json
  graphql_encode data_bytes = check_json (J.from_slice data_bytes) >> ok data_bytes

-- The path that is forwarded.
unfoldable pub forward_path : Bool → Str → Str → Str
forward_path strip route_path path =
    if strip
    then (let stripped : Str = elim (strip_prefix route_path path) [
      | none ↦ path
      | some rest ↦ rest
    ] in
        if is_empty stripped
        then text "/"
        else if starts_with (text "/") stripped
        then stripped
        else text "/" ++ stripped)
    else path

-- A request that the guards refuse is not sent.
unfoldable pub sent_of : Result UpstreamRequest → List Forwarded
sent_of (ok r) = Forwarded.http_sent r ∷ []
sent_of (err e) = []

module _ (axum : Axum) (backends : Backends) where
  built : ℕ → List Header → Str → HttpResponse
  built status headers body = elim (axum.builder status headers body) [
    | none ↦ axum.into_response 500 [] []
    | some response ↦ response
  ]

  outcome : Str → ℕ → Option Str → HttpResponse → List Forwarded → Outcome
  outcome target status error response forwarded = record {
    target = target;
    status = status;
    error = error;
    response = response;
    forwarded = forwarded;
  }

  relayed : Str → List Forwarded → Result Reply → Outcome
  relayed target forwarded (ok reply) =
      outcome target reply.status none (built reply.status reply.headers reply.body) forwarded
  relayed target forwarded (err e) =
      outcome target 502 (some (to_string e)) (axum.into_response 502 [] (text "Bad gateway"))
        forwarded

  unfoldable pub handle_http : HttpTransportConfig → Str → Incoming → List Header → Str → Outcome
  unfolding built outcome relayed sent_of
  handle_http cfg route_path req headers body =
      let path = forward_path cfg.strip_prefix route_path req.path in
      if axum.is_method req.method
      then relayed cfg.url
          (sent_of (http_request req.method cfg.url path req.query headers body cfg.timeout_secs))
          (http_proxy backends.send req.method cfg.url path req.query headers body cfg.timeout_secs)
      else outcome cfg.url 405 none (axum.into_response 405 [] (text "Invalid method")) []

  accepted : Str → Str → List Forwarded → Checked → Outcome
  accepted label target forwarded (ok _) =
      outcome target 202 none (axum.into_response 202 [] []) forwarded
  accepted label target forwarded (err e) =
      outcome target 502 (some (to_string e)) (axum.into_response 502 [] (label ++ to_string e))
        forwarded

  replied : Str → List Forwarded → Result Str → Outcome
  replied target forwarded (ok body) =
      outcome target 200 none
        (built 200 ((text "content-type", text "application/octet-stream") ∷ []) body) forwarded
  replied target forwarded (err e) =
      outcome target 502 (some (to_string e))
        (axum.into_response 502 [] (text "ZMQ error: " ++ to_string e)) forwarded

  unfoldable pub handle_zmq : ZmqTransportConfig → Str → Outcome
  unfolding outcome built accepted replied
  handle_zmq cfg body =
      let sent = Forwarded.zmq_sent cfg.address body ∷ [] in
      elim (cfg.zmq_pattern) [
        | req_rep ↦
            replied cfg.address sent (backends.forward_req_rep cfg.address body cfg.timeout_secs)
        | push ↦
            accepted (text "ZMQ error: ") cfg.address sent (backends.forward_push cfg.address body)
        | pub_sub ↦
            accepted (text "ZMQ error: ") cfg.address sent
              (backends.forward_pub cfg.address body cfg.topic)
      ]

  unfoldable pub handle_mqtt : MqttTransportConfig → Str → Outcome
  unfolding outcome accepted
  handle_mqtt cfg body =
      accepted (text "MQTT error: ") cfg.broker_url (Forwarded.mqtt_sent cfg body ∷ [])
        (backends.mqtt_publish cfg body)

  unfoldable pub handle_amqp : AmqpTransportConfig → Str → Outcome
  unfolding outcome accepted
  handle_amqp cfg body =
      accepted (text "AMQP error: ") cfg.broker_url (Forwarded.amqp_sent cfg body ∷ [])
        (backends.amqp_publish cfg body)

  unframed : Str → List Forwarded → Reply → Result Str → Outcome
  unframed target forwarded reply (ok body) =
      outcome target reply.status none (built reply.status reply.headers body) forwarded
  unframed target forwarded reply (err e) =
      outcome target 502 (some (to_string e))
        (axum.into_response 502 [] (text "Bad gateway: malformed gRPC response")) forwarded

  grpc_relayed : Str → List Forwarded → Result Reply → Outcome
  grpc_relayed target forwarded (ok reply) = unframed target forwarded reply (
      if leb 200 reply.status && ltb reply.status 300
      then decode_grpc_frames reply.body
      else ok reply.body)
  grpc_relayed target forwarded (err e) =
      outcome target 502 (some (to_string e)) (axum.into_response 502 [] (text "Bad gateway"))
        forwarded

  unfoldable pub handle_grpc : GrpcTransportConfig → Incoming → List Header → Str → Outcome
  unfolding outcome built grpc_relayed unframed sent_of
  handle_grpc cfg req headers body =
      let framed = encode_grpc_frame body in
      grpc_relayed cfg.url (sent_of (grpc_request cfg.url req.path headers framed cfg.timeout_secs))
        (grpc_proxy backends.send cfg.url req.path headers framed cfg.timeout_secs)

  module _ (J : Json) where
    graphql_checked : GraphQlTransportConfig → List Header → Result Str → Outcome
    graphql_checked cfg headers (ok body) =
        relayed cfg.url (sent_of (graphql_request cfg.url headers body cfg.timeout_secs))
          (graphql_proxy backends.send cfg.url headers body cfg.timeout_secs)
    graphql_checked cfg headers (err e) =
        outcome cfg.url 400 (some (to_string e))
          (axum.into_response 400 [] (text "GraphQL error: " ++ to_string e)) []

    unfoldable pub handle_graphql : GraphQlTransportConfig → List Header → Str → Outcome
    unfolding outcome built relayed graphql_checked sent_of
    handle_graphql cfg headers body = graphql_checked cfg headers (graphql_encode J body)

    -- `match &route.transport`; none is the `unreachable!()` of a WebSocket route.
    unfoldable pub dispatch : RouteConfig → Incoming → List Header → Str → Option Outcome
    dispatch route req headers body = elim (route.transport) [
      | http cfg ↦ some (handle_http cfg route.path req headers body)
      | zmq cfg ↦ some (handle_zmq cfg body)
      | graphql cfg ↦ some (handle_graphql cfg headers body)
      | grpc cfg ↦ some (handle_grpc cfg req headers body)
      | mqtt cfg ↦ some (handle_mqtt cfg body)
      | amqp cfg ↦ some (handle_amqp cfg body)
      | web_socket _ ↦ none
    ]
