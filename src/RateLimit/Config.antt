-- ===== src/RateLimit/Config.antt =====
-- The sentinel part of the configuration, internal/platform/config/sentinel.go: the rules that a
-- resource stands for. A float64 is a value of the parameter `F`, which is only handed on.
use go_admin.Common.{
  ℕ, zero, suc, ◌-◌, ◌%◌, Bool, ◌&&◌, List, [], ◌∷◌, Bytes, bytes, ℤ, pos, negsuc, if◌then◌else◌,
  ◌==◌, nat_eq, text_eq,
}

-- FlowRuleConfig
pub record FlowRuleConfig (F : Type 0) : Type 0 where
  pub enabled : Bool
  pub threshold : F
  pub control_behavior : Bytes
  pub max_queueing_time_ms : ℤ

-- CircuitBreakerRuleConfig, of it the fields that are read
pub record CircuitBreakerRuleConfig (F : Type 0) : Type 0 where
  pub enabled : Bool
  pub strategy : Bytes
  pub error_ratio_threshold : F
  pub min_request_amount : ℕ
  pub stat_interval_ms : ℕ
  pub max_allowed_rt_ms : ℕ

-- ResourceConfig
pub record ResourceConfig (F : Type 0) : Type 0 where
  pub name : Bytes
  pub path : Bytes
  pub enabled : Bool
  pub flow_rule : FlowRuleConfig F
  pub circuit_breaker_rule : CircuitBreakerRuleConfig F

-- SentinelConfig: the numbers of the global circuit breaker, and the resources
pub record SentinelConfig (F : Type 0) : Type 0 where
  pub retry_timeout_ms : ℕ
  pub min_request_amount : ℕ
  pub stat_interval_ms : ℕ
  pub resources : List (ResourceConfig F)

-- flow.ControlBehavior and circuitbreaker.Strategy
pub data ControlBehavior : Type 0 where
  reject throttling : ControlBehavior

pub data Strategy : Type 0 where
  slow_request_ratio error_ratio error_count : Strategy

-- flow.Rule, with the strategy Direct
pub record FlowRule (F : Type 0) : Type 0 where
  pub resource : Bytes
  pub control_behavior : ControlBehavior
  pub threshold : F
  pub max_queueing_time_ms : ℕ
  pub stat_interval_in_ms : ℕ

-- circuitbreaker.Rule
pub record CircuitBreakerRule (F : Type 0) : Type 0 where
  pub resource : Bytes
  pub strategy : Strategy
  pub retry_timeout_ms : ℕ
  pub min_request_amount : ℕ
  pub stat_interval_ms : ℕ
  pub max_allowed_rt_ms : ℕ
  pub threshold : F

-- getControlBehavior
unfoldable pub control_behavior_of : Bytes → ControlBehavior
control_behavior_of behavior =
    if behavior == bytes "reject"
    then reject
    else if behavior == bytes "throttle"
    then throttling
    else reject

-- The switch on the strategy in ToCircuitBreakerRules.
unfoldable pub strategy_of : Bytes → Strategy
strategy_of strategy =
    if strategy == bytes "slow_request_ratio"
    then slow_request_ratio
    else if strategy == bytes "error_ratio"
    then error_ratio
    else if strategy == bytes "error_count"
    then error_count
    else slow_request_ratio

-- uint32(n)
abbrev pub uint32 : ℤ → ℕ
uint32 (pos n) = n % 4294967296
uint32 (negsuc n) = 4294967295 - n % 4294967296

abbrev pub or_else : ℕ → ℕ → ℕ
or_else zero d = d
or_else (suc n) d = suc n

module _ {F : Type 0} where
  -- ToFlowRules; nil and the empty slice are one.
  unfoldable pub to_flow_rules : ResourceConfig F → List (FlowRule F)
  unfolding control_behavior_of
  to_flow_rules rc =
      if rc.enabled && rc.flow_rule.enabled
      then record {
        resource = rc.name;
        control_behavior = control_behavior_of rc.flow_rule.control_behavior;
        threshold = rc.flow_rule.threshold;
        max_queueing_time_ms = uint32 rc.flow_rule.max_queueing_time_ms;
        stat_interval_in_ms = 1000;
      }
        ∷ []
      else []

  -- The rule that ToCircuitBreakerRules makes, with its defaults.
  abbrev pub cb_rule_of : SentinelConfig F → ResourceConfig F → CircuitBreakerRule F
  cb_rule_of config rc =
      let rule = rc.circuit_breaker_rule in
      record {
        resource = rc.name;
        strategy = strategy_of rule.strategy;
        retry_timeout_ms = or_else config.retry_timeout_ms 5000;
        min_request_amount = or_else rule.min_request_amount (or_else config.min_request_amount 10);
        stat_interval_ms = or_else rule.stat_interval_ms (or_else config.stat_interval_ms 5000);
        max_allowed_rt_ms = rule.max_allowed_rt_ms;
        threshold = rule.error_ratio_threshold;
      }

  -- ToCircuitBreakerRules
  unfoldable pub to_circuit_breaker_rules :
      SentinelConfig F → ResourceConfig F → List (CircuitBreakerRule F)
  unfolding strategy_of
  to_circuit_breaker_rules config rc =
      if rc.enabled && rc.circuit_breaker_rule.enabled then cb_rule_of config rc ∷ [] else []
