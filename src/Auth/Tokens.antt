-- ===== src/Auth/Tokens.antt =====
-- internal/modules/iam/tokenstore: the list of revoked tokens, in memory or in Redis. The Redis
-- client is a parameter. Times are in nanoseconds, in the order in which a call reads them.
use go_admin.Common.{
  ℕ, Bool, false, [], ◌∷◌, ◌++◌, ℤ, pos, sub_ℕ, is_pos, Bytes, bytes, trim_space, to_lower,
  has_suffix, if◌then◌else◌, ◌==◌, text_eq,
}
use go_admin.Outcome.{new, Outcome, ok, err, Act}
use go_admin.Store
use go_admin.Store.{Memory, new_memory}

-- The clock's readings during Revoke: by time.Until, by SetWithTTL and by the cleanup behind it.
pub record RevokeReadings : Type 0 where
  pub at_until : ℕ
  pub at_set : ℕ
  pub at_cleanup : ℕ

-- TokenStore, over the state `S` of the store
pub record TokenStore (S : Type 0) : Type 0 where
  pub revoke : RevokeReadings → Bytes → ℕ → Act S (Unit {0})
  pub is_revoked : ℕ → Bytes → Act S Bool

-- InMemoryTokenStore
abbrev pub InMemory : Type 0
InMemory = Memory Bytes (Unit {0})

-- NewInMemoryTokenStore
unfoldable pub new_in_memory : InMemory
new_in_memory = new_memory (pos 0)

-- InMemoryTokenStore.Revoke
unfoldable pub in_memory_revoke : RevokeReadings → Bytes → ℕ → Act InMemory (Unit {0})
unfolding Store.set_until
in_memory_revoke now [] exp s = (ok tt, s)
in_memory_revoke now (c ∷ jti) exp s =
    (ok tt, Store.set_until now.at_until now.at_set now.at_cleanup (c ∷ jti) tt exp s)

-- InMemoryTokenStore.IsRevoked
unfoldable pub in_memory_is_revoked : ℕ → Bytes → Act InMemory Bool
unfolding Store.has
in_memory_is_revoked now [] s = (ok false, s)
in_memory_is_revoked now (c ∷ jti) s = let (b, s') = Store.has now (c ∷ jti) s in (ok b, s')

abbrev pub in_memory_token_store : TokenStore InMemory
in_memory_token_store = record { revoke = in_memory_revoke; is_revoked = in_memory_is_revoked }

-- The calls of pkg/redis that the store uses: SET with a time to live, and EXISTS.
pub record RedisClient (R : Type 0) : Type 0 where
  pub set : ℕ → Bytes → Bytes → ℤ → Act R (Unit {0})
  pub exists : ℕ → Bytes → Act R Bool

abbrev pub default_key_prefix : Bytes
default_key_prefix = bytes "go_admin:jwt:revoked:"

-- NewRedisTokenStore
abbrev or_default : Bytes → Bytes
or_default [] = default_key_prefix
or_default (c ∷ p) = c ∷ p

unfoldable pub redis_prefix : Bytes → Bytes
redis_prefix key_prefix =
    let p = or_default key_prefix in if has_suffix p (bytes ":") then p else p ++ bytes ":"

module _ {R : Type 0} (client : RedisClient R) (prefix : Bytes) where
  -- RedisTokenStore.Revoke
  unfoldable pub redis_revoke : RevokeReadings → Bytes → ℕ → Act R (Unit {0})
  redis_revoke now [] exp r = (ok tt, r)
  redis_revoke now (c ∷ jti) exp r =
      let ttl = sub_ℕ exp now.at_until in
      if is_pos ttl
      then client.set now.at_set (prefix ++ (c ∷ jti)) (bytes "1") ttl r
      else (ok tt, r)

  -- RedisTokenStore.IsRevoked
  unfoldable pub redis_is_revoked : ℕ → Bytes → Act R Bool
  redis_is_revoked now [] r = (ok false, r)
  redis_is_revoked now (c ∷ jti) r = client.exists now (prefix ++ (c ∷ jti)) r

  abbrev pub redis_token_store : TokenStore R
  redis_token_store = record { revoke = redis_revoke; is_revoked = redis_is_revoked }

-- DriverMemory, DriverRedis
abbrev pub driver_memory : Bytes
driver_memory = bytes "memory"

abbrev pub driver_redis : Bytes
driver_redis = bytes "redis"

-- NormalizeDriver
unfoldable pub normalize_driver : Bytes → Bytes
normalize_driver driver =
    let name = to_lower (trim_space driver) in
    if name == []
    then driver_memory
    else if name == driver_memory
    then driver_memory
    else if name == bytes "inmemory"
    then driver_memory
    else if name == bytes "in-memory"
    then driver_memory
    else if name == driver_redis
    then driver_redis
    else name

-- What New chooses.
pub data Choice : Type 0 where
  in_memory : Choice
  redis : Bytes → Choice

-- New; `has_redis` is whether the options carry a client.
unfoldable pub new_token_store : Bytes → Bytes → Bool → Outcome Choice
unfolding normalize_driver redis_prefix
new_token_store driver key_prefix has_redis =
    let name = normalize_driver driver in
    if name == driver_memory
    then ok in_memory
    else if name == driver_redis
    then (if has_redis
        then ok (redis (redis_prefix key_prefix))
        else err (new "token store driver requires redis client"))
    else err (new "unknown token store driver")
