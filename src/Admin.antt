-- ===== src/Admin.antt =====
-- src/admin/config_store.rs and the configuration requests of src/admin/handlers.rs. `V` is
-- `serde_json::Value`.
pub mod Safety
pub mod Reports
use iron_babel.Base.{ℕ, Bool, true, false, Option, none, some, List, [], ◌∷◌, min}
use iron_babel.Text.{Str}
use iron_babel.Error.{Error, Result, Checked, ok, err, ◌>>◌, to_string}
use iron_babel.Config.Types.{GatewayConfig}
use iron_babel.Config.Validate.{validate}
use iron_babel.Metrics.{MetricsStore, RequestLogEntry}
use iron_babel.Metrics.Rates.{recent_requests}

pub record AdminConfigStore (V : Type 0) : Type 0 where
  pub active : GatewayConfig V
  pub draft : GatewayConfig V

pub record ConfigValidationResponse : Type 0 where
  pub valid : Bool
  pub errors : List Str

pub record ConfigDraftResponse (V : Type 0) : Type 0 where
  pub saved : Bool
  pub errors : List Str
  pub draft : GatewayConfig V

pub record ConfigActivateResponse (V : Type 0) : Type 0 where
  pub activated : Bool
  pub errors : List Str
  pub active : GatewayConfig V

module _ {V : Type 0} where
  unfoldable pub new : GatewayConfig V → AdminConfigStore V
  new config = record { active = config; draft = config }

  unfoldable pub save_draft : GatewayConfig V → AdminConfigStore V → AdminConfigStore V
  save_draft config store = record { active = store.active; draft = config }

  -- The answer of `activate_draft` and the store after it.
  unfoldable pub activate_draft : AdminConfigStore V → Result (GatewayConfig V) × AdminConfigStore V
  activate_draft store = elim (validate store.draft) [
    | ok _ ↦ (ok store.draft, record { active = store.draft; draft = store.draft })
    | err e ↦ (err e, store)
  ]

  unfoldable pub admin_validate_config : GatewayConfig V → ConfigValidationResponse
  admin_validate_config config = elim (validate config) [
    | ok _ ↦ record { valid = true; errors = [] }
    | err e ↦ record { valid = false; errors = to_string e ∷ [] }
  ]

  unfoldable pub admin_save_draft_config :
      GatewayConfig V → AdminConfigStore V → ConfigDraftResponse V × AdminConfigStore V
  admin_save_draft_config config store = elim (validate config) [
    | ok _ ↦ (record { saved = true; errors = []; draft = config }, save_draft config store)
    | err e ↦ (record { saved = false; errors = to_string e ∷ []; draft = config }, store)
  ]

  activate_response :
      Result (GatewayConfig V) × AdminConfigStore V → ConfigActivateResponse V × AdminConfigStore V
  activate_response (ok active, store) =
      (record { activated = true; errors = []; active = active }, store)
  activate_response (err e, store) =
      (record { activated = false; errors = to_string e ∷ []; active = store.active }, store)

  unfoldable pub admin_activate_draft_config :
      AdminConfigStore V → ConfigActivateResponse V × AdminConfigStore V
  unfolding activate_response
  admin_activate_draft_config store = activate_response (activate_draft store)

limit_of : Option ℕ → ℕ
limit_of none = 50
limit_of (some n) = n

unfoldable pub admin_recent_requests : MetricsStore → Option ℕ → List RequestLogEntry
unfolding limit_of
admin_recent_requests store n = recent_requests store (min (limit_of n) 500)
