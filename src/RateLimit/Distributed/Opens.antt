-- ===== src/RateLimit/Distributed/Opens.antt =====
-- What RedisClusterRateLimiter answers over Redis as it is: a script that returns false gives the
-- client a nil reply, which go-redis reports as the error redis.Nil.
use go_admin.Common.{ℕ, ◌≡◌, refl, ap, ◌∙◌, true, false, ◌⊎◌, inl, inr, Bytes}
use go_admin.RateLimit.Ip.{next}
use go_admin.RateLimit.Distributed.{
  Node, LuaReply, lua_bool, lua_error, RunResult, integer, run_error, ScriptRunner, verdict, script,
  limiter_key, handle,
}

-- The conversion of a script's answer: true is the integer 1, false is nil.
abbrev pub converted : LuaReply → RunResult
converted (lua_bool true) = integer 1
converted (lua_bool false) = run_error
converted lua_error = run_error

module _ {R : Type 0} (runner : ScriptRunner R) where
  -- A run answers with what the script's answer is converted to, or the link failed.
  abbrev pub Converts : Type 0
  Converts =
      (f : R → LuaReply × R) (r : R)
      → ((runner.run f r).0 ≡ run_error) ⊎ ((runner.run f r).0 ≡ converted (f r).0)

verdict-converted : (x : LuaReply) → verdict (converted x) ≡ next
verdict-converted (lua_bool true) = refl
verdict-converted (lua_bool false) = refl
verdict-converted lua_error = refl

module _ {R : Type 0} (node : Node R) (runner : ScriptRunner R) where
  -- If go-redis answers a script with an error of the link, or with 1 for true and an error for
  -- false and for an error, as Redis turns false into a nil reply, RedisClusterRateLimiter lets
  -- every request go on, whatever the rate, the capacity, the clock and the state of the node.
  pub handle_never_blocks :
      (at rps burst : ℕ) (prefix ip path : Bytes) (now : ℕ) (r : R)
      → Converts runner
      → (handle node runner at rps burst prefix ip path now r).0 ≡ next
  unfolding handle
  handle_never_blocks at rps burst prefix ip path now r laws =
      let f = script node at (limiter_key prefix ip path) rps burst now in
      elim (laws f r) [ inl e ↦ ap verdict e | inr e ↦ ap verdict e ∙ verdict-converted (f r).0 ]
