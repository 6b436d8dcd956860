-- ===== src/Config.antt =====
-- internal/platform/config/config.go and env.go: loading of the configuration, once in a process. The
-- file with its YAML decoder and the environment are parameters; of the configuration the fields that
-- the environment overrides are here, and the others are the parameter `C`.
pub mod Once
use go_admin.Common.{
  ℕ, zero, suc, Bool, true, false, ◌&&◌, Option, none, some, [], ◌∷◌, Bytes, bytes, ℤ, pos, negsuc,
  is_pos, ltb, nat_beq, if◌then◌else◌,
}
use go_admin.Outcome.{Error}
use go_admin.Auth.Jwt.{parse_uint}

-- ServerConfig, OpenTelemetryConfig, DatabaseConfig, RedisConfig and JWTConfig in Config
pub record Config (C : Type 0) : Type 0 where
  pub server_port : ℤ
  pub otel_service : Bytes
  pub otel_endpoint : Bytes
  pub otel_protocol : Bytes
  pub database_host : Bytes
  pub database_port : ℤ
  pub database_user : Bytes
  pub database_password : Bytes
  pub database_name : Bytes
  pub redis_host : Bytes
  pub redis_port : ℤ
  pub redis_password : Bytes
  pub jwt_secret : Bytes
  pub rest : C

-- lookupNonEmpty, on what os.LookupEnv answers
unfoldable pub lookup_non_empty : Option Bytes → Option Bytes
lookup_non_empty none = none
lookup_non_empty (some []) = none
lookup_non_empty (some (c ∷ v)) = some (c ∷ v)

abbrev below_2_63 : Option ℕ → Option ℤ
below_2_63 none = none
below_2_63 (some n) = if ltb n 9223372036854775808 then some (pos n) else none

abbrev negated : Option ℕ → Option ℤ
negated none = none
negated (some zero) = some (pos 0)
negated (some (suc n)) = if ltb n 9223372036854775808 then some (negsuc n) else none

-- strconv.Atoi
unfoldable pub atoi : Bytes → Option ℤ
unfolding parse_uint
atoi [] = none
atoi (c ∷ s) =
    if nat_beq c 45
    then negated (parse_uint s)
    else if nat_beq c 43
    then below_2_63 (parse_uint s)
    else below_2_63 (parse_uint (c ∷ s))

abbrev or_kept : {A : Type 0} → A → Option A → A
or_kept dst none = dst
or_kept dst (some v) = v

-- overrideString
unfoldable pub override_string : Bytes → Option Bytes → Bytes
unfolding lookup_non_empty
override_string dst v = or_kept dst (lookup_non_empty v)

abbrev pub if_positive : ℤ → Option ℤ → ℤ
if_positive dst none = dst
if_positive dst (some n) = if is_pos n then n else dst

abbrev number_or_kept : ℤ → Option Bytes → ℤ
number_or_kept dst none = dst
number_or_kept dst (some v) = if_positive dst (atoi v)

-- overrideInt
unfoldable pub override_int : ℤ → Option Bytes → ℤ
unfolding lookup_non_empty atoi
override_int dst v = number_or_kept dst (lookup_non_empty v)

-- The variables config and once.
pub record Loader (C : Type 0) : Type 0 where
  pub config : Option (Config C)
  pub once_done : Bool

module _ {C : Type 0} (env : Bytes → Option Bytes) where
  -- applyEnvOverrides
  unfoldable pub apply_env_overrides : Config C → Config C
  unfolding override_string override_int
  apply_env_overrides cfg = record {
    server_port = override_int cfg.server_port (env (bytes "APP_PORT"));
    otel_service = override_string cfg.otel_service (env (bytes "INSTANCE_ID"));
    otel_endpoint = override_string cfg.otel_endpoint (env (bytes "OTEL_EXPORTER_OTLP_ENDPOINT"));
    otel_protocol = override_string cfg.otel_protocol (env (bytes "OTEL_EXPORTER_OTLP_PROTOCOL"));
    database_host = override_string cfg.database_host (env (bytes "DATABASE_HOST"));
    database_port = override_int cfg.database_port (env (bytes "DATABASE_PORT"));
    database_user = override_string cfg.database_user (env (bytes "DATABASE_USER"));
    database_password = override_string cfg.database_password (env (bytes "DATABASE_PASSWORD"));
    database_name = override_string cfg.database_name (env (bytes "DATABASE_NAME"));
    redis_host = override_string cfg.redis_host (env (bytes "REDIS_HOST"));
    redis_port = override_int cfg.redis_port (env (bytes "REDIS_PORT"));
    redis_password = override_string cfg.redis_password (env (bytes "REDIS_PASSWORD"));
    jwt_secret = override_string cfg.jwt_secret (env (bytes "JWT_SECRET"));
    rest = cfg.rest;
  }

  -- The function under once.Do; `load_file` is loadFile, which fills a configuration and may fail
  -- behind a part of it.
  abbrev pub first_load : Option Error × Config C → (Option (Config C) × Option Error) × Loader C
  first_load (none, cfg) =
      let cfg' = apply_env_overrides cfg in
      ((some cfg', none), record { config = some cfg'; once_done = true })
  first_load (some e, cfg) = ((some cfg, some e), record { config = some cfg; once_done = true })

  -- Load: the configuration, and the error.
  unfoldable pub load :
      (Config C → Option Error × Config C)
      → Config C
      → Loader C
      → (Option (Config C) × Option Error) × Loader C
  unfolding apply_env_overrides
  load load_file defaults s =
      if s.once_done then ((s.config, none), s) else first_load (load_file defaults)

abbrev pub fresh_loader : {C : Type 0} → Loader C
fresh_loader = record { config = none; once_done = false }

abbrev port_of : {C : Type 0} → Option (Config C) → ℤ
port_of none = pos 0
port_of (some cfg) = cfg.server_port

-- GetAppPort
unfoldable pub get_app_port : {C : Type 0} → Loader C → ℤ
get_app_port s = port_of s.config
