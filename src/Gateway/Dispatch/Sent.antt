-- ===== src/Gateway/Dispatch/Sent.antt =====
-- The address that the request to an HTTP, GraphQL or gRPC backend names as X-Forwarded-For.
use iron_babel.Base.{
  ℕ, ◌≡◌, refl, ap, ◌∙◌, Bool, true, false, not, Bool-cases, inl, inr, Option, String, List, [],
  ◌∷◌, ◌++◌, map, retain, any, All, if◌then◌else◌,
}
use iron_babel.Text.{
  Str, text, str_eq, is_empty, eq_ignore_ascii_case, to_ascii_lowercase, lower_byte,
}
use iron_babel.Text.Laws.{str_eq_iff}
use iron_babel.Error.{Result, ok, err}
use iron_babel.HttpGuard.{Header, is_listed, hop_by_hop, strip_hop_by_hop_headers}
use iron_babel.Upstream.{
  UpstreamRequest, forward_headers, http_request, graphql_request, grpc_request,
}
use iron_babel.Upstream.Requests.{http_request-headers}
use iron_babel.Upstream.Requests.Framed.{
  graphql_dropped, graphql_request-headers, grpc_dropped, grpc_set, grpc_request-headers,
}
use iron_babel.Gateway.{Forwarded, is_forwarded_for}
use iron_babel.Gateway.Dispatch.{sent_of}

retain-retain :
    (p q : Header → Bool)
    → ((h : Header) → p h ≡ true → q h ≡ true)
    → (hs : List Header) → retain p (retain q hs) ≡ retain p hs
unfolding retain
retain-retain p q within [] = refl
retain-retain p q within (h ∷ hs) = elim (Bool-cases (p h)) [
  | inl wanted ↦
      rw (wanted, within h wanted) (rw wanted (ap (λ l. h ∷ l) (retain-retain p q within hs)))
  | inr other ↦ elim (Bool-cases (q h)) [
    | inl kept ↦ rw (other, kept) (rw other (retain-retain p q within hs))
    | inr dropped ↦ rw (other, dropped) (retain-retain p q within hs)
  ]
]

lower_name :
    (h : Header) → is_forwarded_for h ≡ true → to_ascii_lowercase h.0 ≡ text "x-forwarded-for"
unfolding is_forwarded_for eq_ignore_ascii_case to_ascii_lowercase text lower_byte
lower_name h e = (str_eq_iff (to_ascii_lowercase h.0) (text "x-forwarded-for")).0 e

-- A name that is not among the listed ones in lower case.
unlisted :
    (names : List Str) (h : Header)
    → any (λ n. str_eq n (text "x-forwarded-for")) names ≡ false
    → is_forwarded_for h ≡ true
    → not (is_listed names h.0) ≡ true
unfolding is_listed
unlisted names h absent e = rw (lower_name h e, absent) refl

hop_by_hop-absent : any (λ n. str_eq n (text "x-forwarded-for")) hop_by_hop ≡ false
unfolding any str_eq text hop_by_hop
hop_by_hop-absent = refl

forward_headers-address :
    (dropped : List String) (headers : List Header)
    → any (λ n. str_eq n (text "x-forwarded-for")) (map text dropped) ≡ false
    → retain is_forwarded_for (forward_headers dropped headers) ≡ retain is_forwarded_for headers
unfolding forward_headers strip_hop_by_hop_headers
forward_headers-address dropped headers absent =
    retain-retain is_forwarded_for _ (λ h. unlisted (map text dropped) h absent) _
    ∙ retain-retain is_forwarded_for _ (λ h. unlisted hop_by_hop h hop_by_hop-absent) headers

-- The address that the headers name: the socket's, or none if it is unknown.
abbrev pub address_of : Str → List Header
address_of addr = if is_empty addr then [] else (text "x-forwarded-for", addr) ∷ []

abbrev pub IsAddressed : Str → Forwarded → Type 0
IsAddressed addr (Forwarded.http_sent r) = retain is_forwarded_for r.headers ≡ address_of addr
IsAddressed addr _ = Unit {0}

-- Each of the calls names the address.
pub record AllAddressed (addr : Str) (calls : List Forwarded) : Type 0 where
  pub each : All (IsAddressed addr) calls

module _ (addr : Str) (headers : List Header)
    (named : retain is_forwarded_for headers ≡ address_of addr) where
  carried :
      (dropped : List String)
      → any (λ n. str_eq n (text "x-forwarded-for")) (map text dropped) ≡ false
      → retain is_forwarded_for (forward_headers dropped headers) ≡ address_of addr
  carried dropped absent = forward_headers-address dropped headers absent ∙ named

  -- A request whose headers are those that are forwarded, behind others.
  sent_of-address :
      (m : Result UpstreamRequest) (set : List Header) (dropped : List String)
      → any (λ n. str_eq n (text "x-forwarded-for")) (map text dropped) ≡ false
      → ((hs : List Header) → retain is_forwarded_for (set ++ hs) ≡ retain is_forwarded_for hs)
      → ((req : UpstreamRequest)
          → m ≡ ok req
          → req.headers ≡ set ++ forward_headers dropped headers)
      → AllAddressed addr (sent_of m)
  unfolding sent_of
  sent_of-address (ok req) set dropped absent plain made = record {
    each = (ap (retain is_forwarded_for) (made req refl) ∙ (plain _ ∙ carried dropped absent), tt);
  }
  sent_of-address (err e) set dropped absent plain made = record { each = tt }

  pub http_request-address :
      (method base path : Str) (query : Option Str) (body : Str) (timeout : ℕ)
      → AllAddressed addr (sent_of (http_request method base path query headers body timeout))
  unfolding any str_eq text
  http_request-address method base path query body timeout =
      sent_of-address _ [] ("host" ∷ "content-length" ∷ []) refl (λ hs. refl)
        (http_request-headers method base path query headers body timeout)

  pub graphql_request-address :
      (url body : Str) (timeout : ℕ)
      → AllAddressed addr (sent_of (graphql_request url headers body timeout))
  unfolding any str_eq text retain is_forwarded_for eq_ignore_ascii_case to_ascii_lowercase
      lower_byte
  graphql_request-address url body timeout =
      sent_of-address _ ((text "content-type", text "application/json") ∷ []) graphql_dropped refl
        (λ hs. refl) (graphql_request-headers url body headers timeout)

  pub grpc_request-address :
      (base path body : Str) (timeout : ℕ)
      → AllAddressed addr (sent_of (grpc_request base path headers body timeout))
  unfolding any str_eq text retain is_forwarded_for eq_ignore_ascii_case to_ascii_lowercase
      lower_byte
  grpc_request-address base path body timeout =
      sent_of-address _ (grpc_set base path headers body timeout)
        (grpc_dropped base path headers body timeout) refl (λ hs. refl)
        (grpc_request-headers base path headers body timeout)
