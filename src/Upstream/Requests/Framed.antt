-- ===== src/Upstream/Requests/Framed.antt =====
-- The gRPC request of src/gateway/grpc.rs: what it has passed, and what it carries; and the headers of
-- the GraphQL request of src/gateway/graphql.rs.
use iron_babel.Base.{
  ◌++◌, sym, ap, ◌≡◌, refl, subst, inl, inr, not, String, none, List, [], ◌∷◌, arith, ℕ,
}
use iron_babel.Text.{Str, text}
use iron_babel.Error.{ok, reject_if, >>-eq-ok, ok_injective}
use iron_babel.HttpGuard.{Header, path_contains_traversal, path_is_safe}
use iron_babel.Upstream.{
  UpstreamRequest, is_http, target_url, forward_headers, grpc_request, graphql_request,
}
use iron_babel.Upstream.Requests.{
  forward_headers_iff, upstream_url, target_url_lem, IsFit, Carries, guards_iff, check_none,
}

module _ (base path : Str) (headers : List Header) (body : Str) (timeout : ℕ) where
  abbrev pub grpc_dropped : List String
  grpc_dropped = "host" ∷ "content-type" ∷ "content-length" ∷ "te" ∷ []

  abbrev pub grpc_set : List Header
  grpc_set = (text "content-type", text "application/grpc") ∷ (text "te", text "trailers") ∷ []

  abbrev grpc_sent : UpstreamRequest
  grpc_sent = record {
    method = text "POST";
    url = target_url base path none;
    timeout_secs = timeout;
    headers =
        (text "content-type", text "application/grpc")
        ∷ (text "te", text "trailers")
        ∷ forward_headers grpc_dropped headers;
    body = body;
  }

  grpc_request-eq-ok :
      (req : UpstreamRequest)
      → grpc_request base path headers body timeout ≡ ok req
      → IsFit base path none × (grpc_sent ≡ req)
  unfolding grpc_request
  grpc_request-eq-ok req e =
      let (scheme, e1) = >>-eq-ok (reject_if (not (is_http base)) _) _ e in
      let (dots, e2) = >>-eq-ok (reject_if (path_contains_traversal path) _) _ e1 in
      let (bytes, sent) = >>-eq-ok (reject_if (not (path_is_safe path)) _) (ok grpc_sent) e2 in
      (
        (guards_iff base path none).0 (ground arith, ground arith, ground arith, check_none),
        ok_injective sent,
      )

  -- A gRPC request that leaves has passed the same guards, is a POST to the configured base, and
  -- carries the two gRPC headers and exactly the inbound headers that are not hop-by-hop, `host`,
  -- `content-type`, `content-length` or `te`.
  pub grpc_request-Carries :
      (req : UpstreamRequest)
      → grpc_request base path headers body timeout ≡ ok req
      → IsFit base path none
        × Carries
            (upstream_url base path none)
            (text "POST")
            body
            timeout
            grpc_dropped
            grpc_set
            headers
            req
  grpc_request-Carries req e =
      let (fit, sent) = grpc_request-eq-ok req e in
      (
        fit,
        subst (Carries _ (text "POST") body timeout grpc_dropped grpc_set headers) sent (record {
          url_is = target_url_lem base path none;
          method_is = refl;
          body_is = refl;
          timeout_is = refl;
          headers_are = λ h.
              let f = forward_headers_iff grpc_dropped headers h in
              (
                elim [
                  | inl a ↦ inl (inl a)
                  | inr r ↦ elim r [ inl b ↦ inl (inr (inl b)) | inr i ↦ inr (f.0 i) ]
                ],
                elim [
                  | inl s ↦ elim s [
                    | inl a ↦ inl a
                    | inr t ↦ elim t [ inl b ↦ inr (inl b) | inr c ↦ absurd c ]
                  ]
                  | inr i ↦ inr (inr (f.1 i))
                ],
              );
        }),
      )

  pub grpc_request-headers :
      (req : UpstreamRequest)
      → grpc_request base path headers body timeout ≡ ok req
      → req.headers ≡ grpc_set ++ forward_headers grpc_dropped headers
  grpc_request-headers req e = ap (λ r. r.headers) (sym (grpc_request-eq-ok req e).1)

abbrev pub graphql_dropped : List String
graphql_dropped = "host" ∷ "content-type" ∷ "content-length" ∷ []

module _ (url body : Str) (headers : List Header) (timeout : ℕ) (req : UpstreamRequest)
    (made : graphql_request url headers body timeout ≡ ok req) where
  abbrev graphql_sent : UpstreamRequest
  graphql_sent = record {
    method = text "POST";
    url = url;
    timeout_secs = timeout;
    headers =
        (text "content-type", text "application/json") ∷ forward_headers graphql_dropped headers;
    body = body;
  }

  graphql_request-eq-ok : req ≡ graphql_sent
  unfolding graphql_request
  graphql_request-eq-ok =
      sym (ok_injective (>>-eq-ok (reject_if (not (is_http url)) _) (ok graphql_sent) made).1)

  pub graphql_request-headers :
      req.headers
      ≡ (text "content-type", text "application/json") ∷ forward_headers graphql_dropped headers
  graphql_request-headers = ap (λ r. r.headers) graphql_request-eq-ok

  pub graphql_request-url : req.url ≡ url
  graphql_request-url = ap (λ r. r.url) graphql_request-eq-ok
