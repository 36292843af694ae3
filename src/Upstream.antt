-- ===== src/Upstream.antt =====
-- src/gateway/http.rs, src/gateway/graphql.rs and src/gateway/grpc.rs: the request that each sends
-- upstream, and what it makes of the answer. The HTTP client is a parameter.
pub mod Requests
use iron_babel.Base.{
  ℕ, String, Bool, not, ◌||◌, ◌⊎◌, inl, inr, Option, none, some, List, [], ◌∷◌, ◌++◌, if◌then◌else◌,
  retain, map,
}
use iron_babel.Text.{Str, text, starts_with, trim_end_byte}
use iron_babel.Error.{Error, Result, Checked, ok, err, ◌>>=◌, ◌>>◌, reject_if}
use iron_babel.HttpGuard.{
  Header, path_contains_traversal, path_is_safe, query_is_safe, is_listed, strip_hop_by_hop_headers,
}

pub record UpstreamRequest : Type 0 where
  pub method : Str
  pub url : Str
  pub timeout_secs : ℕ
  pub headers : List Header
  pub body : Str

-- A header's value is what `to_str().ok()` gives; reading the body may fail.
pub record UpstreamResponse : Type 0 where
  pub status : ℕ
  pub headers : List (Str × Option Str)
  pub body : Str ⊎ Str

-- `reqwest::Client`: a request that could not be sent gives the error's text.
abbrev pub Client : Type 0
Client = UpstreamRequest → Str ⊎ UpstreamResponse

-- What `proxy` returns: status, headers and body.
pub record Reply : Type 0 where
  pub status : ℕ
  pub headers : List Header
  pub body : Str

unfoldable pub readable_headers : List (Str × Option Str) → List Header
readable_headers [] = []
readable_headers ((name, some value) ∷ hs) = (name, value) ∷ readable_headers hs
readable_headers ((name, none) ∷ hs) = readable_headers hs

receive_body : (Str → Error) → UpstreamResponse → Str ⊎ Str → Result Reply
receive_body mk r (inl e) = err (mk e)
receive_body mk r (inr body) = ok (record {
  status = r.status;
  headers = strip_hop_by_hop_headers (readable_headers r.headers);
  body = body;
})

unfoldable pub receive : (Str → Error) → Str ⊎ UpstreamResponse → Result Reply
unfolding receive_body
receive mk (inl e) = err (mk e)
receive mk (inr r) = receive_body mk r r.body

is_http : Str → Bool
is_http url = starts_with (text "http://") url || starts_with (text "https://") url

check_query : Option Str → Checked
check_query none = ok tt
check_query (some q) = reject_if (not (query_is_safe q)) (Error.protocol (text "invalid query"))

target_url : Str → Str → Option Str → Str
target_url base path none = trim_end_byte b'/' base ++ path
target_url base path (some q) = trim_end_byte b'/' base ++ (path ++ (text "?" ++ q))

-- The headers that are forwarded, `dropped` being the names that the gateway sets itself.
unfoldable pub forward_headers : List String → List Header → List Header
forward_headers dropped headers =
    retain (λ h. not (is_listed (map text dropped) h.0)) (strip_hop_by_hop_headers headers)

-- `HttpGateway::proxy` up to `send`.
unfoldable pub http_request :
    Str → Str → Str → Option Str → List Header → Str → ℕ → Result UpstreamRequest
unfolding is_http check_query target_url
http_request method target_base path query headers body timeout_secs = do
  reject_if (not (is_http target_base))
      (Error.protocol (text "target_base must start with http:// or https://"))
  reject_if (path_contains_traversal path) (Error.protocol (text "invalid path"))
  reject_if (not (path_is_safe path)) (Error.protocol (text "invalid path"))
  check_query query
  ok (record {
    method = method;
    url = target_url target_base path query;
    timeout_secs = timeout_secs;
    headers = forward_headers ("host" ∷ "content-length" ∷ []) headers;
    body = body;
  })

-- `GraphQLGateway::proxy` up to `send`.
unfoldable pub graphql_request : Str → List Header → Str → ℕ → Result UpstreamRequest
unfolding is_http
graphql_request target_url headers body timeout_secs = do
  reject_if (not (is_http target_url))
      (Error.graphql (text "GraphQL target URL must start with http:// or https://"))
  ok (record {
    method = text "POST";
    url = target_url;
    timeout_secs = timeout_secs;
    headers =
        (text "content-type", text "application/json")
        ∷ forward_headers ("host" ∷ "content-type" ∷ "content-length" ∷ []) headers;
    body = body;
  })

-- `GrpcGateway::proxy` up to `send`.
unfoldable pub grpc_request : Str → Str → List Header → Str → ℕ → Result UpstreamRequest
unfolding is_http target_url
grpc_request target_base path headers body timeout_secs = do
  reject_if (not (is_http target_base))
      (Error.protocol (text "gRPC target URL must start with http:// or https://"))
  reject_if (path_contains_traversal path) (Error.protocol (text "invalid path"))
  reject_if (not (path_is_safe path)) (Error.protocol (text "invalid path"))
  ok (record {
    method = text "POST";
    url = target_url target_base path none;
    timeout_secs = timeout_secs;
    headers =
        (text "content-type", text "application/grpc")
        ∷ (text "te", text "trailers")
        ∷ forward_headers ("host" ∷ "content-type" ∷ "content-length" ∷ "te" ∷ []) headers;
    body = body;
  })

module _ (send : Client) where
  unfoldable pub http_proxy : Str → Str → Str → Option Str → List Header → Str → ℕ → Result Reply
  http_proxy method target_base path query headers body timeout_secs = do
    req ← http_request method target_base path query headers body timeout_secs
    receive Error.protocol (send req)

  unfoldable pub graphql_proxy : Str → List Header → Str → ℕ → Result Reply
  graphql_proxy target_url headers body timeout_secs = do
    req ← graphql_request target_url headers body timeout_secs
    receive Error.graphql (send req)

  unfoldable pub grpc_proxy : Str → Str → List Header → Str → ℕ → Result Reply
  grpc_proxy target_base path headers body timeout_secs = do
    req ← grpc_request target_base path headers body timeout_secs
    receive Error.protocol (send req)
