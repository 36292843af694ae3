-- ===== src/Config/Load.antt =====
-- Loading: src/config/env.rs, src/config/file.rs and `GatewayConfig::load` of src/config/mod.rs.
-- The process environment, the file system and serde_yaml are parameters; an error of the last
-- two is its `Display` text.
use iron_babel.Base.{
  ◌≤◌, ◌≡◌, sym, ◌↔◌, ◌⊎◌, inl, inr, Option, none, some, ◌++◌, arith, Option-cases,
}
use iron_babel.Text.{Str, text, parse_u16}
use iron_babel.Text.Laws.{parse_unsigned-le}
use iron_babel.Error.{Error, Result, ok, err, ◌>>=◌, ◌>>◌, >>=-eq-ok, checked-eq-ok}
use iron_babel.Config.Types.{GatewayConfig}
use iron_babel.Config.Validate.{validate}
use iron_babel.Config.Valid.{IsValid, validate_iff}

-- `std::env::var(..).ok()`.
abbrev pub Env : Type 0
Env = Str → Option Str

or_default : Option Str → Str → Str
or_default none d = d
or_default (some s) d = s

unfoldable pub config_file_path : Env → Str
unfolding or_default
config_file_path env = or_default (env (text "IRON_BABEL_CONFIG")) (text "config/gateway.yaml")

module _ {V : Type 0} where
  -- `Err(_)` of the parse only logs a warning.
  override_port : Option Str → GatewayConfig V → GatewayConfig V
  override_port none config = config
  override_port (some val) config = elim (parse_u16 val) [
    | some port ↦ record config { port = port }
    | none ↦ config
  ]

  override_host : Option Str → GatewayConfig V → GatewayConfig V
  override_host none config = config
  override_host (some val) config = record config { host = val }

  unfoldable pub apply_env_overrides : Env → GatewayConfig V → GatewayConfig V
  unfolding override_port override_host
  apply_env_overrides env config =
      override_host (env (text "IRON_BABEL_HOST"))
        (override_port (env (text "IRON_BABEL_PORT")) config)

-- `.map_err(|e| Error::Config(format!("{prefix}{path}': {e}")))`
map_err : {A : Type 0} → Str → Str → Str ⊎ A → Result A
map_err prefix path (inl e) = err (Error.config (prefix ++ (path ++ (text "': " ++ e))))
map_err prefix path (inr a) = ok a

module _ {V : Type 0} (read_to_string : Str → Str ⊎ Str)
    (from_str : Str → Str ⊎ GatewayConfig V) where
  unfoldable pub load_from_file : Str → Result (GatewayConfig V)
  unfolding map_err
  load_from_file path = do
    contents ← map_err (text "Could not read config file '") path (read_to_string path)
    config ← map_err (text "Invalid YAML in config file '") path (from_str contents)
    validate config
    ok config

  unfoldable pub load : Env → Result (GatewayConfig V)
  load env = do
    config ← load_from_file (config_file_path env)
    let overridden = apply_env_overrides env config
    validate overridden
    ok overridden

  -- What a successful load went through: the file was read and parsed, and the configuration was
  -- valid both as written and with the overrides.
  pub record Loaded (env : Env) (c : GatewayConfig V) : Type 0 where
    pub contents : Str
    pub written : GatewayConfig V
    pub was_read : read_to_string (config_file_path env) ≡ inr contents
    pub was_parsed : from_str contents ≡ inr written
    pub written_valid : IsValid written
    pub overridden : c ≡ apply_env_overrides env written
    pub valid : IsValid c

  map_err-eq-ok : {A : Type 0} (p q : Str) (r : Str ⊎ A) {a : A} → map_err p q r ≡ ok a → r ≡ inr a
  unfolding map_err
  map_err-eq-ok p q (inl e) h = cc
  map_err-eq-ok p q (inr a) h = ground arith

  load-Loaded : (env : Env) (c : GatewayConfig V) → load env ≡ ok c → Loaded env c
  unfolding load load_from_file
  load-Loaded env c h =
      let (w, file, rest) = >>=-eq-ok (load_from_file (config_file_path env)) _ h in
      let (valid, same) = checked-eq-ok (validate (apply_env_overrides env w)) _ rest in
      let (contents, was_read, parsing) = >>=-eq-ok _ _ file in
      let (written, was_parsed, checking) = >>=-eq-ok _ _ parsing in
      let (written_valid, same_written) = checked-eq-ok (validate written) written checking in
      record {
        contents = contents;
        written = written;
        was_read = map_err-eq-ok _ _ _ was_read;
        was_parsed = map_err-eq-ok _ _ _ was_parsed;
        written_valid = (validate_iff written).0 written_valid;
        overridden = rw same_written (sym same);
        valid = (validate_iff c).0 (rw (← same) valid);
      }

  Loaded-load : (env : Env) (c : GatewayConfig V) → Loaded env c → load env ≡ ok c
  unfolding load load_from_file map_err
  Loaded-load env c l =
      rw (l.was_read, map_err, l.was_parsed, map_err, (validate_iff l.written).1 l.written_valid)
        (rw (← l.overridden, (validate_iff c).1 l.valid))

  -- Loading succeeds exactly when the file can be read and parsed and the configuration is valid
  -- both as written and with the overrides; the result is the overridden configuration.
  pub load_iff : (env : Env) (c : GatewayConfig V) → (load env ≡ ok c) ↔ Loaded env c
  load_iff env c = (load-Loaded env c, Loaded-load env c)

-- The overrides keep the port a 16-bit number and leave all but the port and the host alone.
apply_env_overrides_bounds :
    {V : Type 0} (env : Env) (c : GatewayConfig V)
    → c.port ≤ 65535
    → ((apply_env_overrides env c).port ≤ 65535)
      × ((apply_env_overrides env c).routes ≡ c.routes)
      × ((apply_env_overrides env c).listeners ≡ c.listeners)
      × ((apply_env_overrides env c).protocols ≡ c.protocols)
      × ((apply_env_overrides env c).middleware ≡ c.middleware)
unfolding apply_env_overrides
apply_env_overrides_bounds env c h = elim (Option-cases (env (text "IRON_BABEL_PORT"))) [
  | inl unset ↦ rw unset (ground arith)
  | inr (val, is_set) ↦ rw is_set (elim (Option-cases (parse_u16 val)) [
    | inl bad ↦ rw (bad, override_port) (ground arith)
    | inr (port, parsed) ↦
        rw (parsed, override_port) (ground (arith, parse_unsigned-le 65535 val port parsed))
  ])
]
