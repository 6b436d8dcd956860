-- ===== src/Config/Once.antt =====
-- What Load of internal/platform/config/config.go answers when it is called again, and what the
-- environment leaves usable.
use go_admin.Common.{
  ◌≡◌, ◌≢◌, refl, ap, true, Option, none, some, [], ◌∷◌, Bytes, bytes, ℤ, is_pos, arith,
}
use go_admin.Outcome.{Error}
use go_admin.Config.{
  Config, fresh_loader, lookup_non_empty, atoi, override_string, override_int, if_positive,
  first_load, apply_env_overrides, load,
}

override_string-ne : (dst : Bytes) (v : Option Bytes) → dst ≢ [] → override_string dst v ≢ []
unfolding override_string lookup_non_empty
override_string-ne dst none h = h
override_string-ne dst (some []) h = h
override_string-ne dst (some (c ∷ v)) h = λ e. cc

override_int-pos :
    (dst : ℤ) (v : Option Bytes) → is_pos dst ≡ true → is_pos (override_int dst v) ≡ true
unfolding override_int lookup_non_empty
override_int-pos dst none h = h
override_int-pos dst (some []) h = h
override_int-pos dst (some (c ∷ v)) h = go (atoi (c ∷ v))
  where
    go : (o : Option ℤ) → is_pos (if_positive dst o) ≡ true
    go none = h
    go (some n) = ground arith

module _ {C : Type 0} (env : Bytes → Option Bytes) (load_file : Config C → Option Error × Config C)
    (defaults : Config C) where
  -- A configuration that the program can start with: positive ports, and a secret.
  abbrev pub IsUsable : Config C → Type 0
  IsUsable cfg =
      (is_pos cfg.server_port ≡ true)
      × (is_pos cfg.database_port ≡ true)
      × (is_pos cfg.redis_port ≡ true)
      × (cfg.jwt_secret ≢ [])

  -- Whatever the environment holds, it leaves a usable configuration usable.
  apply_env_overrides-IsUsable :
      (cfg : Config C) → IsUsable cfg → IsUsable (apply_env_overrides env cfg)
  unfolding apply_env_overrides
  apply_env_overrides-IsUsable cfg (s, d, r, j) = (
    override_int-pos cfg.server_port (env (bytes "APP_PORT")) s,
    override_int-pos cfg.database_port (env (bytes "DATABASE_PORT")) d,
    override_int-pos cfg.redis_port (env (bytes "REDIS_PORT")) r,
    override_string-ne cfg.jwt_secret (env (bytes "JWT_SECRET")) j,
  )

  -- If the file of the configuration cannot be read or decoded, behind the part of it that is in
  -- some configuration: the first Load returns that configuration and the error, and the next one
  -- returns it without an error; neither applies what the environment says.
  pub load_again :
      (e : Error) (cfg : Config C)
      → load_file defaults ≡ (some e, cfg)
      → let first = load env load_file defaults fresh_loader in
        let again = load env load_file defaults first.1 in
        (first.0 ≡ (some cfg, some e)) × (again ≡ ((some cfg, none), first.1))
  unfolding load
  load_again e cfg h = rw (ap (first_load env) h) (refl, refl)
