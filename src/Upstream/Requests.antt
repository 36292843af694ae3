-- ===== src/Upstream/Requests.antt =====
-- What a request that leaves for an upstream has passed, and what it carries.
pub mod Framed
use iron_babel.Base.{
  ◌≡◌, refl, sym, ap, subst, ◌↔◌, ◌⊎◌, inl, inr, true, false, not, String, Option, none, some, List,
  [], ◌∷◌, ◌++◌, map, arith, ℕ, All, In, retain-In_iff, not_true,
}
use iron_babel.Text.{Str, text, trim_end_byte, to_ascii_lowercase}
use iron_babel.Text.Laws.{starts_with_iff}
use iron_babel.Error.{ok, reject_if, >>-eq-ok, ok_injective}
use iron_babel.HttpGuard.{
  Header, path_contains_traversal, path_is_safe, is_listed, hop_by_hop, strip_hop_by_hop_headers,
  has_dotdot,
}
use iron_babel.HttpGuard.Traversal.{rounds, path_contains_traversal_iff}
use iron_babel.HttpGuard.Safety.{
  IsVisible, IsSafePath, path_is_safe_iff, query_is_safe_iff, unlisted_iff,
  strip_hop_by_hop_headers_iff,
}
use iron_babel.Config.Urls.{IsHttpUrl}
use iron_babel.Upstream.{
  UpstreamRequest, is_http, check_query, target_url, forward_headers, http_request, grpc_request,
}

-- No pass of percent decoding brings out a `..` segment.
abbrev pub HasNoTraversal : Str → Type 0
HasNoTraversal path = (n : ℕ) → has_dotdot (rounds n (to_ascii_lowercase path)) ≡ false

-- A header of the inbound request that is neither hop-by-hop nor one that the gateway sets.
abbrev pub IsForwarded : List String → List Header → Header → Type 0
IsForwarded dropped headers h =
    In h headers
    × (¬ (In (to_ascii_lowercase h.0) hop_by_hop))
    × (¬ (In (to_ascii_lowercase h.0) (map text dropped)))

-- Exactly the inbound headers that are neither hop-by-hop nor among the names that the gateway sets
-- itself, in any casing, are forwarded.
pub forward_headers_iff :
    (dropped : List String) (headers : List Header) (h : Header)
    → In h (forward_headers dropped headers) ↔ IsForwarded dropped headers h
unfolding forward_headers
forward_headers_iff dropped headers h =
    let kept =
      retain-In_iff (λ (h : Header). not (is_listed (map text dropped) h.0)) h
        (strip_hop_by_hop_headers headers) in
    let strip = strip_hop_by_hop_headers_iff h headers in
    let unlisted = unlisted_iff (map text dropped) h.0 in
    (
      λ i.
          let (there, test) = kept.0 i in
          let (inbound, end_to_end) = strip.0 there in (inbound, end_to_end, unlisted.0 test),
      λ i. kept.1 (strip.1 (i.0, i.1), unlisted.1 i.2),
    )

is_http_iff : (url : Str) → (is_http url ≡ true) ↔ IsHttpUrl url
unfolding is_http
is_http_iff url =
    ground (arith, starts_with_iff (text "http://") url, starts_with_iff (text "https://") url)

HasNoTraversal-iff : (path : Str) → (path_contains_traversal path ≡ false) ↔ HasNoTraversal path
HasNoTraversal-iff path = (
  λ h n. not_true _ (λ e. cc ((path_contains_traversal_iff path).1 (n, e))),
  λ h. not_true _ (λ t. let (n, e) = (path_contains_traversal_iff path).0 t in cc (h n)),
)

abbrev pub IsSafeQuery : Option Str → Type 0
IsSafeQuery none = Unit
IsSafeQuery (some q) = All IsVisible q

check_query_iff : (query : Option Str) → (check_query query ≡ ok tt) ↔ IsSafeQuery query
unfolding check_query
check_query_iff none = ground arith
check_query_iff (some q) = ground (arith, query_is_safe_iff q)

check_none : check_query none ≡ ok tt
unfolding check_query
check_none = refl

abbrev pub upstream_url : Str → Str → Option Str → Str
upstream_url base path none = trim_end_byte b'/' base ++ path
upstream_url base path (some q) = trim_end_byte b'/' base ++ (path ++ (text "?" ++ q))

target_url_lem :
    (base path : Str) (query : Option Str)
    → target_url base path query ≡ upstream_url base path query
unfolding target_url
target_url_lem base path none = refl
target_url_lem base path (some q) = refl

-- The inbound request is fit to be forwarded to the base URL.
pub record IsFit (base path : Str) (query : Option Str) : Type 0 where
  pub trusted : IsHttpUrl base
  pub no_traversal : HasNoTraversal path
  pub safe_path : IsSafePath path
  pub safe_query : IsSafeQuery query

-- What leaves for the upstream; `set` are the headers that the gateway adds itself.
pub record Carries (url method body : Str) (timeout : ℕ) (dropped : List String)
    (set headers : List Header) (req : UpstreamRequest) : Type 0 where
  pub url_is : req.url ≡ url
  pub method_is : req.method ≡ method
  pub body_is : req.body ≡ body
  pub timeout_is : req.timeout_secs ≡ timeout
  pub headers_are : (h : Header) → In h req.headers ↔ (In h set ⊎ IsForwarded dropped headers h)

guards_iff :
    (base path : Str) (query : Option Str)
    → ((is_http base ≡ true)
        × (path_contains_traversal path ≡ false)
        × (path_is_safe path ≡ true)
        × (check_query query ≡ ok tt))
      ↔ IsFit base path query
guards_iff base path query = (
  λ (a, b, c, d). record {
    trusted = (is_http_iff base).0 a;
    no_traversal = (HasNoTraversal-iff path).0 b;
    safe_path = (path_is_safe_iff path).0 c;
    safe_query = (check_query_iff query).0 d;
  },
  λ f. (
    (is_http_iff base).1 f.trusted,
    (HasNoTraversal-iff path).1 f.no_traversal,
    (path_is_safe_iff path).1 f.safe_path,
    (check_query_iff query).1 f.safe_query,
  ),
)

module _ (method base path : Str) (query : Option Str) (headers : List Header) (body : Str)
    (timeout : ℕ) where
  abbrev http_sent : UpstreamRequest
  http_sent = record {
    method = method;
    url = target_url base path query;
    timeout_secs = timeout;
    headers = forward_headers ("host" ∷ "content-length" ∷ []) headers;
    body = body;
  }

  http_request-eq-ok :
      (req : UpstreamRequest)
      → http_request method base path query headers body timeout ≡ ok req
      → IsFit base path query × (http_sent ≡ req)
  unfolding http_request
  http_request-eq-ok req e =
      let (scheme, e1) = >>-eq-ok (reject_if (not (is_http base)) _) _ e in
      let (dots, e2) = >>-eq-ok (reject_if (path_contains_traversal path) _) _ e1 in
      let (bytes, e3) = >>-eq-ok (reject_if (not (path_is_safe path)) _) _ e2 in
      let (q, sent) = >>-eq-ok (check_query query) (ok http_sent) e3 in
      (
        (guards_iff base path query).0 (ground arith, ground arith, ground arith, q),
        ok_injective sent,
      )

  -- An HTTP request leaves exactly when the target is an http(s) URL and the path and query are fit.
  pub http_request-ok_iff :
      ((req : UpstreamRequest) × (http_request method base path query headers body timeout
          ≡ ok req))
      ↔ IsFit base path query
  unfolding http_request
  http_request-ok_iff = (
    λ s. let (req, e) = s in (http_request-eq-ok req e).0,
    λ f. let (a, b, c, d) = (guards_iff base path query).1 f in (http_sent, rw (a, b, c, d)),
  )

  -- An HTTP request that leaves goes to the configured base with the path and query as received, and carries exactly the
  -- inbound headers that are not hop-by-hop, `host` or `content-length`.
  pub http_request-Carries :
      (req : UpstreamRequest)
      → http_request method base path query headers body timeout ≡ ok req
      → Carries
          (upstream_url base path query)
          method
          body
          timeout
          ("host" ∷ "content-length" ∷ [])
          []
          headers
          req
  http_request-Carries req e =
      subst (Carries _ method body timeout ("host" ∷ "content-length" ∷ []) [] headers)
        (http_request-eq-ok req e).1
        (record {
          url_is = target_url_lem base path query;
          method_is = refl;
          body_is = refl;
          timeout_is = refl;
          headers_are = λ h.
              let f = forward_headers_iff ("host" ∷ "content-length" ∷ []) headers h in
              (λ i. inr (f.0 i), elim [ inl i ↦ absurd i | inr i ↦ f.1 i ]);
        })

  pub http_request-headers :
      (req : UpstreamRequest)
      → http_request method base path query headers body timeout ≡ ok req
      → req.headers ≡ forward_headers ("host" ∷ "content-length" ∷ []) headers
  http_request-headers req e = ap (λ r. r.headers) (sym (http_request-eq-ok req e).1)
