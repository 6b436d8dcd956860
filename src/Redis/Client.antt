-- ===== src/Redis/Client.antt =====
-- pkg/redis/client.go over go-redis, which is a parameter: PING, SET and EXISTS, with their outcomes.
use go_admin.Common.{
  ℕ, Bool, true, false, [], Bytes, ℤ, pos, negsuc, is_pos, if◌then◌else◌, ltb, ◌==◌, text_eq,
}
use go_admin.Outcome.{new, wrap, Outcome, ok, err, panic, or_wrap, Act}

-- Options, of them the fields that New looks at
pub record Options : Type 0 where
  pub addr : Bytes
  pub pool_size : ℤ
  pub ping_timeout : ℤ

-- defaultPingTimeout: three seconds
abbrev pub default_ping_timeout : ℤ
default_ping_timeout = pos 3000000000

-- goredis.Client: what New and the two commands call. PING takes the timeout of its context.
pub record Raw (R : Type 0) : Type 0 where
  pub ping : ℤ → R → Outcome (Unit {0})
  pub set : Bytes → Bytes → ℤ → Act R (Unit {0})
  pub exists : Bytes → R → Outcome ℕ

abbrev pub is_negative : ℤ → Bool
is_negative (pos n) = false
is_negative (negsuc n) = true

module _ {R : Type 0} (raw : Raw R) where
  -- New: whether there is a client. A client whose PING fails is closed again.
  unfoldable pub new_client : Options → R → Outcome (Unit {0})
  new_client opts r =
      if opts.addr == []
      then err (new "redis addr is empty")
      else if is_negative opts.pool_size
      then err (new "redis pool_size is invalid")
      else or_wrap "redis ping failed" (
          raw.ping (if is_pos opts.ping_timeout then opts.ping_timeout else default_ping_timeout) r)

  -- Set
  unfoldable pub set : Bytes → Bytes → ℤ → Act R (Unit {0})
  set key value ttl r = let (o, r') = raw.set key value ttl r in (or_wrap "redis set" o, r')

  abbrev positive : Outcome ℕ → Outcome Bool
  positive (ok n) = ok (ltb 0 n)
  positive (err e) = err (wrap "redis exists" e)
  positive panic = panic

  -- Exists
  unfoldable pub exists : Bytes → R → Outcome Bool
  exists key r = positive (raw.exists key r)
