-- ===== src/Middleware.antt =====
-- src/core/types.rs and src/core/middleware: the requests and responses that the chain handles.
pub mod Auth
pub mod RateLimit
pub mod Chain
use iron_babel.Base.{ℕ, Bool, Option, List}
use iron_babel.Text.{Str}
use iron_babel.HttpGuard.{Header}

-- Durations are nanoseconds.
pub record RequestMetadata : Type 0 where
  pub protocol : Str
  pub method : Option Str
  pub path : Option Str
  pub headers : List Header
  pub timeout : Option ℕ
  pub remote_addr : Option Str

pub record Request : Type 0 where
  pub body : Str
  pub metadata : RequestMetadata

pub record ResponseMetadata : Type 0 where
  pub status_code : Option ℕ
  pub headers : List Header
  pub duration : Option ℕ

pub record Response : Type 0 where
  pub body : Str
  pub metadata : ResponseMetadata

-- `V` is `serde_json::Value`.
pub record MiddlewareConfig (V : Type 0) : Type 0 where
  pub enabled : Bool
  pub settings : V
