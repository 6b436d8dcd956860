-- ===== src/RateLimit/Rules.antt =====
-- internal/platform/middleware/sentinel/sentinel.go and the reloading of internal/platform/config/sentinel.go:
-- the map from paths to resources, and the middleware. Sentinel, the YAML decoder and the file are
-- parameters.
pub mod Loaded
pub mod Breakers
use go_admin.Common.{
  ℕ, zero, suc, ◌+◌, ◌-◌, ◌%◌, Bool, true, false, ◌&&◌, not, ◌⊎◌, inl, inr, Option, none, some,
  List, [], ◌∷◌, ◌++◌, Bytes, bytes, ℤ, pos, negsuc, if◌then◌else◌, ◌==◌, nat_eq, text_eq, find,
  assign,
}
use go_admin.Outcome.{Error, Outcome, ok, err, panic, wrap}
use go_admin.RateLimit.Config.{
  FlowRuleConfig, CircuitBreakerRuleConfig, ResourceConfig, SentinelConfig, FlowRule,
  CircuitBreakerRule, to_flow_rules, to_circuit_breaker_rules,
}

-- What loadRules gathers.
pub record Gathered (F : Type 0) : Type 0 where
  pub resource_map : List (Bytes × Bytes)
  pub flow_rules : List (FlowRule F)
  pub cb_rules : List (CircuitBreakerRule F)

module _ {F : Type 0} where
  abbrev pub gather_one : SentinelConfig F → ResourceConfig F → Gathered F → Gathered F
  gather_one config rc g =
      if rc.enabled
      then record {
        resource_map = assign rc.path rc.name g.resource_map;
        flow_rules = g.flow_rules ++ to_flow_rules rc;
        cb_rules = g.cb_rules ++ to_circuit_breaker_rules config rc;
      }
      else g

  -- The loop of loadRules.
  unfoldable pub gather : SentinelConfig F → List (ResourceConfig F) → Gathered F → Gathered F
  unfolding to_flow_rules to_circuit_breaker_rules
  gather config [] g = g
  gather config (rc ∷ rcs) g = gather config rcs (gather_one config rc g)

abbrev pub nothing_gathered : {F : Type 0} → Gathered F
nothing_gathered = record { resource_map = []; flow_rules = []; cb_rules = [] }

-- Sentinel and the library: the configuration of the manager, the map, and what the library has loaded.
pub record Sentinel (F : Type 0) : Type 0 where
  pub config : SentinelConfig F
  pub resource_map : List (Bytes × Bytes)
  pub loaded_flow : List (FlowRule F)
  pub loaded_cb : List (CircuitBreakerRule F)

-- flow.LoadRules and circuitbreaker.LoadRules: the error, if there is one.
pub record RuleManagers (F : Type 0) : Type 0 where
  pub check_flow : List (FlowRule F) → Option Error
  pub check_cb : List (CircuitBreakerRule F) → Option Error

module _ {F : Type 0} where
  abbrev pub load_cb : Gathered F → Option Error → Sentinel F → Outcome (Unit {0}) × Sentinel F
  load_cb g (some e) s = (err (wrap "failed to load circuit breaker rules" e), s)
  load_cb g none s = (ok tt, record s { loaded_cb = g.cb_rules })

  -- The end of loadRules, with the answers of flow.LoadRules and circuitbreaker.LoadRules.
  abbrev pub load_both :
      Gathered F → Option Error → Option Error → Sentinel F → Outcome (Unit {0}) × Sentinel F
  load_both g (some e) b s = (err (wrap "failed to load flow rules" e), s)
  load_both g none b s = load_cb g b (record s { loaded_flow = g.flow_rules })

  -- loadRules
  unfoldable pub load_rules : RuleManagers F → Sentinel F → Outcome (Unit {0}) × Sentinel F
  unfolding gather
  load_rules managers s =
      let g = gather s.config s.config.resources nothing_gathered in
      load_both g (managers.check_flow g.flow_rules) (managers.check_cb g.cb_rules)
        (record s { resource_map = g.resource_map })

abbrev replaced :
    {F : Type 0} → Error ⊎ SentinelConfig F → Sentinel F → Outcome (Unit {0}) × Sentinel F
replaced (inl e) s = (err (wrap "failed to unmarshal config" e), s)
replaced (inr config) s = (ok tt, record s { config = config })

abbrev read :
    {F : Type 0}
    → (Bytes → Error ⊎ SentinelConfig F)
    → Error ⊎ Bytes
    → Sentinel F
    → Outcome (Unit {0}) × Sentinel F
read unmarshal (inl e) s = (err (wrap "failed to read config file" e), s)
read unmarshal (inr text) s = replaced (unmarshal text) s

-- reloadConfig; the arguments are yaml.Unmarshal and what os.ReadFile gives.
unfoldable pub reload_config :
    {F : Type 0}
    → (Bytes → Error ⊎ SentinelConfig F)
    → Error ⊎ Bytes
    → Sentinel F
    → Outcome (Unit {0}) × Sentinel F
reload_config unmarshal file s = read unmarshal file s

-- The name for a path that the map does not have.
abbrev pub global_default : Bytes
global_default = bytes "global_default"

abbrev pub named : Option Bytes → Bytes × Bool
named none = (global_default, true)
named (some name) = (name, true)

-- matchResource
unfoldable pub match_resource : {F : Type 0} → Bytes → Sentinel F → Bytes × Bool
match_resource path s = named (find path s.resource_map)

-- What the middleware does with a request: it goes on unguarded, it goes on inside an entry of the
-- resource, which it leaves behind the handlers, or it is answered with RateLimit and aborted.
pub data Verdict : Type 0 where
  unguarded : Verdict
  guarded blocked : Bytes → Verdict

abbrev pub by_name : (Bytes → Bool) → Bytes × Bool → Verdict
by_name blocks (name, exists) =
    if not exists then unguarded else if blocks name then blocked name else guarded name

abbrev with_receiver : {F : Type 0} → (Bytes → Bool) → Bytes → Option (Sentinel F) → Outcome Verdict
with_receiver blocks path none = panic
with_receiver blocks path (some s) = ok (by_name blocks (match_resource path s))

abbrev receiver : {F : Type 0} → Option (Sentinel F) → Option (Sentinel F) → Option (Sentinel F)
receiver none instance' = instance'
receiver (some s) instance' = some s

-- Middleware; `mw` is its receiver and `instance'` SentinelInstance, both may be nil, and `blocks` is
-- whether sentinel's Entry refuses a resource.
unfoldable pub middleware :
    {F : Type 0}
    → (Bytes → Bool)
    → Bytes
    → Option (Sentinel F)
    → Option (Sentinel F)
    → Outcome Verdict
unfolding match_resource
middleware blocks path mw instance' = with_receiver blocks path (receiver mw instance')
