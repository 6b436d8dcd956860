-- ===== src/RateLimit/Distributed.antt =====
-- RedisClusterRateLimiter of internal/platform/middleware/sentinel/limiter.go: the Lua script, and the
-- middleware around it. Rate, capacity and the clock in seconds are natural numbers, which Lua's
-- numbers hold exactly up to 2^53; a rate of zero makes the time to live infinite.
pub mod Opens
pub mod Bound
use go_admin.Common.{
  ℕ, zero, suc, ◌+◌, ◌-◌, ◌*◌, ◌/◌, Bool, true, false, Option, none, some, ◌∷◌, ◌++◌, Bytes, bytes,
  leb, if◌then◌else◌,
}
use go_admin.Outcome.{Error}
use go_admin.RateLimit.Ip.{Answer, next, too_many_requests}

-- The commands that the script calls, at a time of the node in milliseconds: GET with tonumber, SET,
-- and PEXPIRE with a time to live in milliseconds.
pub record Node (R : Type 0) : Type 0 where
  pub get : ℕ → Bytes → R → Option ℕ
  pub set : Bytes → ℕ → R → R
  pub pexpire : ℕ → Bytes → ℕ → R → R

-- What a script answers: a Boolean, or an error.
pub data LuaReply : Type 0 where
  lua_bool : Bool → LuaReply
  lua_error : LuaReply

abbrev pub or_value : ℕ → Option ℕ → ℕ
or_value d none = d
or_value d (some n) = n

abbrev pub min : ℕ → ℕ → ℕ
min a b = if leb a b then a else b

-- filled_tokens
unfoldable pub filled_tokens : ℕ → ℕ → ℕ → ℕ → ℕ → ℕ
filled_tokens rate capacity now last_tokens last_refreshed =
    let delta = now - last_refreshed in min capacity (last_tokens + delta * rate)

-- key .. ':ts'
abbrev pub stamp_key : Bytes → Bytes
stamp_key key = key ++ bytes ":ts"

module _ {R : Type 0} (node : Node R) where
  abbrev pub tokens_at : ℕ → ℕ → Bytes → R → ℕ
  tokens_at at capacity key r = or_value capacity (node.get at key r)

  abbrev pub refreshed_at : ℕ → Bytes → R → ℕ
  refreshed_at at key r = or_value 0 (node.get at (stamp_key key) r)

  -- The two writes, and the times to live; pexpire refuses an infinite one.
  abbrev pub written : Bytes → ℕ → ℕ → R → R
  written key tokens now r = node.set (stamp_key key) now (node.set key tokens r)

  abbrev pub kept : ℕ → Bytes → ℕ → ℕ → Bool → R → LuaReply × R
  kept at key zero capacity allowed r = (lua_error, r)
  kept at key (suc rate) capacity allowed r =
      let ms = (2 * capacity) / suc rate * 1000 in
      (lua_bool allowed, node.pexpire at (stamp_key key) ms (node.pexpire at key ms r))

  -- The script, with `requested` = 1, run when the node's clock shows `at`.
  unfoldable pub script : ℕ → Bytes → ℕ → ℕ → ℕ → R → LuaReply × R
  unfolding filled_tokens
  script at key rate capacity now r =
      let filled =
        filled_tokens rate capacity now (tokens_at at capacity key r) (refreshed_at at key r) in
      let allowed = leb 1 filled in
      let new_tokens = if allowed then filled - 1 else filled in
      kept at key rate capacity allowed (written key new_tokens now r)

-- script.Run(...).Result() of go-redis: an int64, another value, or an error.
pub data RunResult : Type 0 where
  integer : ℕ → RunResult
  other_value : RunResult
  run_error : RunResult

-- go-redis: what it makes of a script, run on the node through the link.
pub record ScriptRunner (R : Type 0) : Type 0 where
  pub run : (R → LuaReply × R) → R → RunResult × R

-- The request goes on when the run failed, and is blocked when the answer is no integer or 0.
abbrev pub verdict : RunResult → Answer
verdict run_error = next
verdict other_value = too_many_requests
verdict (integer zero) = too_many_requests
verdict (integer (suc n)) = next

-- fmt.Sprintf("%s:%s:%s", keyPrefix, ip, path)
abbrev pub limiter_key : Bytes → Bytes → Bytes → Bytes
limiter_key prefix ip path = prefix ++ (bytes ":" ++ (ip ++ (bytes ":" ++ path)))

module _ {R : Type 0} (node : Node R) (runner : ScriptRunner R) where
  -- The middleware at a reading of its clock in seconds; `at` is the time of the node.
  unfoldable pub handle : ℕ → ℕ → ℕ → Bytes → Bytes → Bytes → ℕ → R → Answer × R
  unfolding script
  handle at rps burst prefix ip path now r =
      let (result, r') = runner.run (script node at (limiter_key prefix ip path) rps burst now) r in
      (verdict result, r')
