-- ===== src/Admin/Safety.antt =====
-- The configuration requests of src/admin/handlers.rs: their answers, and the states of the store
-- under interleaved requests.
use iron_babel.Base.{◌≡◌, refl, ◌⊎◌, inl, inr, true, false, List, [], ◌∷◌, ◌++◌}
use iron_babel.Error.{Error, Checked, ok, err, to_string}
use iron_babel.Config.Types.{GatewayConfig}
use iron_babel.Config.Validate.{validate}
use iron_babel.Config.Valid.{IsValid, validate_iff}
use iron_babel.Admin.{
  AdminConfigStore, new, save_draft, activate_draft, admin_save_draft_config,
  admin_activate_draft_config, activate_response,
}

Checked-cases : (m : Checked) → (m ≡ ok tt) ⊎ ((e : Error) × (m ≡ err e))
Checked-cases (ok tt) = inl refl
Checked-cases (err e) = inr (e, refl)

module _ {V : Type 0} where
  activate_draft-valid :
      (store : AdminConfigStore V)
      → validate store.draft ≡ ok tt
      → activate_draft store
        ≡ (ok store.draft, record { active = store.draft; draft = store.draft })
  unfolding activate_draft
  activate_draft-valid store h = rw (h, activate_draft) refl

  activate_draft-invalid :
      (store : AdminConfigStore V) (e : Error)
      → validate store.draft ≡ err e
      → activate_draft store ≡ (err e, store)
  unfolding activate_draft
  activate_draft-invalid store e h = rw (h, activate_draft) refl

  activate-valid :
      (store : AdminConfigStore V)
      → validate store.draft ≡ ok tt
      → admin_activate_draft_config store ≡ (
        record { activated = true; errors = []; active = store.draft },
        record { active = store.draft; draft = store.draft },
      )
  unfolding admin_activate_draft_config activate_response
  activate-valid store h = rw (activate_draft-valid store h, admin_activate_draft_config) refl

  activate-invalid :
      (store : AdminConfigStore V) (e : Error)
      → validate store.draft ≡ err e
      → admin_activate_draft_config store
        ≡ (record { activated = false; errors = to_string e ∷ []; active = store.active }, store)
  unfolding admin_activate_draft_config activate_response
  activate-invalid store e h =
      rw (activate_draft-invalid store e h, admin_activate_draft_config) refl

  save-valid :
      (config : GatewayConfig V) (store : AdminConfigStore V)
      → validate config ≡ ok tt
      → admin_save_draft_config config store
        ≡ (record { saved = true; errors = []; draft = config }, save_draft config store)
  unfolding admin_save_draft_config
  save-valid config store h = rw (h, admin_save_draft_config) refl

  save-invalid :
      (config : GatewayConfig V) (store : AdminConfigStore V) (e : Error)
      → validate config ≡ err e
      → admin_save_draft_config config store
        ≡ (record { saved = false; errors = to_string e ∷ []; draft = config }, store)
  unfolding admin_save_draft_config
  save-invalid config store e h = rw (h, admin_save_draft_config) refl

  -- Saving a draft succeeds exactly for a valid configuration, which becomes the draft; a refused
  -- one leaves the store as it was.
  pub admin_save_draft_config-saved :
      (config : GatewayConfig V) (store : AdminConfigStore V)
      → (((admin_save_draft_config config store).0.saved ≡ true)
          × IsValid config
          × ((admin_save_draft_config config store).1
              ≡ record { active = store.active; draft = config }))
        ⊎ (((admin_save_draft_config config store).0.saved ≡ false)
            × (IsValid config → ⊥)
            × ((admin_save_draft_config config store).1 ≡ store))
  unfolding save_draft
  admin_save_draft_config-saved config store = elim (Checked-cases (validate config)) [
    | inl valid ↦
        rw (save-valid config store valid) (inl (refl, (validate_iff config).0 valid, refl))
    | inr (e, invalid) ↦
        rw (save-invalid config store e invalid)
          (inr (refl, (λ v. absurd (cc ((validate_iff config).1 v, invalid))), refl))
  ]

  -- Activation succeeds exactly for a valid draft, which becomes the active configuration; a refused
  -- one leaves the store as it was, and the answer shows the configuration still in force.
  pub admin_activate_draft_config-activated :
      (store : AdminConfigStore V)
      → (((admin_activate_draft_config store).0.activated ≡ true)
          × IsValid store.draft
          × ((admin_activate_draft_config store).1
              ≡ record { active = store.draft; draft = store.draft }))
        ⊎ (((admin_activate_draft_config store).0.activated ≡ false)
            × (IsValid store.draft → ⊥)
            × ((admin_activate_draft_config store).1 ≡ store)
            × ((admin_activate_draft_config store).0.active ≡ store.active))
  admin_activate_draft_config-activated store = elim (Checked-cases (validate store.draft)) [
    | inl valid ↦
        rw (activate-valid store valid) (inl (refl, (validate_iff store.draft).0 valid, refl))
    | inr (e, invalid) ↦
        rw (activate-invalid store e invalid)
          (inr (refl, (λ v. absurd (cc ((validate_iff store.draft).1 v, invalid))), refl, refl))
  ]

  -- What the handlers do to a store. An activation reads and checks the draft, and writes it later:
  -- between the two, other requests may run. `pending` are the drafts that are checked but not yet
  -- written.
  pub data Reachable (config : GatewayConfig V)
      : AdminConfigStore V → List (GatewayConfig V) → Type 0 where
    start : Reachable config (new config) []
    saved :
        (draft : GatewayConfig V) {store : AdminConfigStore V} {pending : List (GatewayConfig V)}
        → Reachable config store pending
        → Reachable config (admin_save_draft_config draft store).1 pending
    checked :
        {store : AdminConfigStore V} {pending : List (GatewayConfig V)}
        → validate store.draft ≡ ok tt
        → Reachable config store pending
        → Reachable config store (store.draft ∷ pending)
    written :
        (before : List (GatewayConfig V)) (draft : GatewayConfig V) (after : List (GatewayConfig V))
        {store : AdminConfigStore V}
        → Reachable config store (before ++ draft ∷ after)
        → Reachable config (record { active = draft; draft = store.draft }) (before ++ after)
