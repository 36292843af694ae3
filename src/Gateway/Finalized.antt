-- ===== src/Gateway/Finalized.antt =====
-- `finalize_response` of src/core/gateway.rs: the status of what the client gets.
use iron_babel.Base.{◌≡◌, ◌≤◌, List, arith}
use iron_babel.Json.{Json}
use iron_babel.Middleware.Chain
use iron_babel.Middleware.Chain.{Middleware}
use iron_babel.Gateway.{HttpResponse, Axum, rebuilt, status_of, finalize_response}

-- A status that is a status code is kept.
pub finalize_response-status :
    (J : Json) (axum : Axum) (ms : List (Middleware J.Value)) (raw : HttpResponse)
    → 100 ≤ raw.status
    → raw.status ≤ 999
    → (finalize_response J axum ms raw).status ≡ raw.status
unfolding finalize_response rebuilt status_of
finalize_response-status J axum ms raw low high =
    rw (Chain.Outcomes.handle_response_same J ms _) (ground arith)
