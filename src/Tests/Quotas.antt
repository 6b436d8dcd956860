-- ===== src/Tests/Quotas.antt =====
-- The limiter on Redis and the rules of sentinel at concrete inputs.
use go_admin.Common.{
  ℕ, ◌+◌, ◌-◌, ◌*◌, ◌/◌, ◌≤◌, ◌⊎◌, ltb, ◌≡◌, refl, sym, Bool, true, false, inl, inr, Option, none,
  some, [], ◌∷◌, Bytes, bytes, pos, if◌then◌else◌, ◌==◌, text_eq, nat_eq, list_beq_iff, arith, Elem,
}
use go_admin.Outcome.{ok}
use go_admin.RateLimit.Ip.{next}
use go_admin.RateLimit.Distributed.{Node, lua_bool, ScriptRunner, script, handle, filled_tokens}
use go_admin.RateLimit.Distributed.Opens.{Converts, converted, handle_never_blocks}
use go_admin.RateLimit.Distributed.Bound.{NodeLaws, passed, passed_bound}
use go_admin.RateLimit.Config.{
  ResourceConfig, SentinelConfig, FlowRule, CircuitBreakerRule, to_flow_rules,
  to_circuit_breaker_rules, strategy_of, control_behavior_of,
}
use go_admin.RateLimit.Rules.{Sentinel, RuleManagers, load_rules, middleware, blocked, gather}
use go_admin.RateLimit.Rules.Loaded.{middleware-load_rules}

-- A node whose keys stand with the time at which they go, if there is one.
abbrev Memory : Type 0
Memory = Bytes → Option (ℕ × Option ℕ)

abbrev alive : ℕ → Option (ℕ × Option ℕ) → Option ℕ
alive t none = none
alive t (some (n, none)) = some n
alive t (some (n, some until)) = if ltb t until then some n else none

abbrev expired_at : ℕ → Option ℕ → Option (ℕ × Option ℕ)
expired_at until none = none
expired_at until (some n) = some (n, some until)

abbrev memory_node : Node Memory
memory_node = record {
  get = λ t k r. alive t (r k);
  set = λ k n r j. if k == j then some (n, none) else r j;
  pexpire = λ at k ms r j. if k == j then expired_at (at + ms) (alive at (r j)) else r j;
}

lives_on :
    (t until : ℕ) (o : Option ℕ)
    → (alive t (expired_at until o) ≡ o) ⊎ ((alive t (expired_at until o) ≡ none) × (until ≤ t))
lives_on t until none = inl refl
lives_on t until (some n) = ground arith

memory_node-Laws : NodeLaws memory_node
memory_node-Laws = record {
  get-set = λ t k n r. ground (arith, list_beq_iff k k);
  get-set_other = λ t j k n r other. ground (arith, list_beq_iff j k, λ (e : j ≡ k). other (sym e));
  get-pexpire = λ t at k ms r h.
      let same : (k == k) ≡ true = (list_beq_iff k k).1 refl in
      rw same (lives_on t (at + ms) (alive at (r k)));
  get-pexpire_other =
      λ t at j k ms r other. ground (arith, list_beq_iff j k, λ (e : j ≡ k). other (sym e));
}

abbrev empty_memory : Memory
empty_memory k = none

abbrev runner : ScriptRunner Memory
runner = record { run = λ f r. (converted (f r).0, (f r).1) }

runner-Converts : Converts runner
runner-Converts f r = inr refl

-- One request in two seconds: of three calls at one time the script refuses two, and all go on.
abbrev after_one : Memory
after_one = (script memory_node 100000 (bytes "k:1:/") 1 1 100 empty_memory).1

script_refuses : (script memory_node 100000 (bytes "k:1:/") 1 1 100 after_one).0 ≡ lua_bool false
unfolding script filled_tokens
script_refuses = refl

handle_never_blocks_example :
    (handle memory_node runner 100000 1 1 (bytes "k") (bytes "1") (bytes "/") 100 after_one).0
    ≡ next
handle_never_blocks_example =
    handle_never_blocks memory_node runner 100000 1 1 (bytes "k") (bytes "1") (bytes "/") 100
      after_one runner-Converts

-- The key lives for two seconds, and is gone at the last call.
passed_bound_example :
    passed memory_node memory_node-Laws
      (bytes "k")
      0
      1
      (omega arith)
      (100000 ∷ 100900 ∷ 103000 ∷ [])
      empty_memory
    ≤ 1 + (103000 / 1000 - 100000 / 1000) * 1
passed_bound_example =
    passed_bound memory_node memory_node-Laws (bytes "k") 0 1 (omega arith) 100000 103000
      (100900 ∷ 103000 ∷ []) empty_memory (omega arith)

abbrev resource : Bytes → Bytes → Bool → ResourceConfig ℕ
resource name path enabled = record {
  name = name;
  path = path;
  enabled = enabled;
  flow_rule = record {
    enabled = true;
    threshold = 100;
    control_behavior = bytes "reject";
    max_queueing_time_ms = pos 500;
  };
  circuit_breaker_rule = record {
    enabled = true;
    strategy = bytes "error_ratio";
    error_ratio_threshold = 1;
    min_request_amount = 0;
    stat_interval_ms = 0;
    max_allowed_rt_ms = 500;
  };
}

abbrev guard : Sentinel ℕ
guard = record {
  config = record {
    retry_timeout_ms = 0;
    min_request_amount = 0;
    stat_interval_ms = 0;
    resources =
        resource (bytes "old") (bytes "/login") true
        ∷ resource (bytes "login") (bytes "/login") true
        ∷ resource (bytes "off") (bytes "/x") false
        ∷ [];
  };
  resource_map = [];
  loaded_flow = [];
  loaded_cb = [];
}

abbrev managers : RuleManagers ℕ
managers = record { check_flow = λ rules. none; check_cb = λ rules. none }

middleware-load_rules_example :
    middleware
      (λ name. name == bytes "login")
      (bytes "/login")
      (some (load_rules managers guard).1)
      none
    ≡ ok (blocked (bytes "login"))
middleware-load_rules_example =
    middleware-load_rules managers guard (λ name. name == bytes "login") (bytes "/login") none

abbrev login_rule : CircuitBreakerRule ℕ
login_rule = record {
  resource = bytes "login";
  strategy = go_admin.RateLimit.Config.error_ratio;
  retry_timeout_ms = 5000;
  min_request_amount = 10;
  stat_interval_ms = 5000;
  max_allowed_rt_ms = 500;
  threshold = 1;
}

login_rule_loaded : Elem login_rule (load_rules managers guard).1.loaded_cb
unfolding load_rules gather to_flow_rules to_circuit_breaker_rules strategy_of control_behavior_of
login_rule_loaded = inr (inl refl)

all_loaded : (load_rules managers guard).0 ≡ ok tt
unfolding load_rules
all_loaded = refl
