-- ===== src/Examples/Serving.antt =====
-- The whole gateway over four requests: three to a route, the last of them over the limit, and one
-- to the admin pages without a token.
use iron_babel.Base.{ℕ, ◌≡◌, refl, true, some, List, [], ◌∷◌, ◌++◌, All, arith, map, all, ltb}
use iron_babel.Text.{Str, text}
use iron_babel.Grpc.Bytes.{IsByte}
use iron_babel.Gateway.{HttpResponse, AppState, Times, Forwarded}
use iron_babel.Gateway.Dispatch.Sent.{IsAddressed}
use iron_babel.Gateway.Handler.{handle_request}
use iron_babel.Gateway.Handler.Addressed.{handle_request-IsAddressed}
use iron_babel.Gateway.Serving.{Visit, traffic, admin, stamp, initial, reached}
use iron_babel.Gateway.Serving.Presented.{IsPresented, reached-IsPresented}
use iron_babel.Examples.SampleJson.{sample_json, sample_laws}
use iron_babel.Examples.SampleGateway.{section, request, axum, backends, times, state, router}
use iron_babel.Examples.AdminPages.{stranger}

abbrev at : ℕ → Times
at now = record { now = now; now_ms = 1000; latency_ms = 3 }

abbrev visits : List Visit
visits =
    traffic (at 5) request
    ∷ traffic (at 6) request
    ∷ traffic (at 7) request
    ∷ admin 8 (λ r m. record { status = 200; headers = []; body = text "metrics" }) stranger
    ∷ []

bytes : (s : Str) → all (λ c. ltb c 256) s ≡ true → All IsByte s
unfolding all
bytes [] h = tt
bytes (c ∷ s) h = (ground arith, bytes s (ground arith))

header_bytes : All (λ h. All IsByte h.1) request.headers
unfolding all text
header_bytes = (bytes (text "Bearer k1") refl, (bytes (text "1.2.3.4") refl, tt))

key_bytes : All (All IsByte) (text "k1" ∷ [])
unfolding all text
key_bytes = (bytes (text "k1") refl, tt)

abbrev reached_times : List (Str × ℕ)
reached_times = map stamp (
    reached sample_json axum backends router visits
      (initial sample_json axum backends router section))

reached-IsPresented_example :
    All
      (IsPresented sample_json sample_laws axum backends router section
        (text "k1")
        []
        refl
        key_bytes)
      (reached sample_json axum backends router visits
        (initial sample_json axum backends router section))
reached-IsPresented_example =
    reached-IsPresented sample_json sample_laws axum backends router section (text "k1") [] refl
      key_bytes visits (header_bytes, (header_bytes, (header_bytes, (tt, tt))))

handle_request-IsAddressed_example :
    (response : HttpResponse) × (after : AppState sample_json.Value) × (calls : List Forwarded)
    × (handle_request sample_json axum backends router times request state ≡ some (response, after))
    × (after.forwarded ≡ [] ++ calls)
    × All (IsAddressed (text "10.0.0.1")) calls
handle_request-IsAddressed_example =
    handle_request-IsAddressed sample_json axum backends router times request state
