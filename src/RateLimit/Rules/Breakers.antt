-- ===== src/RateLimit/Rules/Breakers.antt =====
-- The circuit breaker rules that loadRules of sentinel.go loads.
use go_admin.Common.{
  ℕ, zero, suc, ◌<◌, ◌≡◌, refl, ap, sym, subst, Bool, true, false, ◌&&◌, inl, inr, ◌⊎◌, Option,
  none, some, List, [], ◌∷◌, ◌++◌, if◌then◌else◌, text_eq, assign, arith, Elem, Elem-append,
}
use go_admin.Outcome.{Error, ok}
use go_admin.RateLimit.Config.{
  ResourceConfig, SentinelConfig, CircuitBreakerRule, to_flow_rules, to_circuit_breaker_rules,
  or_else, cb_rule_of,
}
use go_admin.RateLimit.Rules.Loaded.{behind_loop}
use go_admin.RateLimit.Rules.{
  Gathered, gather_one, gather, nothing_gathered, Sentinel, RuleManagers, load_rules,
}

or_else_pos : (n d : ℕ) → 0 < d → 0 < or_else n d
or_else_pos zero d h = h
or_else_pos (suc n) d h = omega arith

module _ {F : Type 0} where
  -- A rule that sentinel takes: its numbers are positive.
  abbrev pub IsUsable : CircuitBreakerRule F → Type 0
  IsUsable r = (0 < r.retry_timeout_ms) × (0 < r.min_request_amount) × (0 < r.stat_interval_ms)

  -- A rule of an enabled resource whose circuit breaker is enabled.
  abbrev pub IsOf : List (ResourceConfig F) → CircuitBreakerRule F → Type 0
  IsOf rcs r =
      (rc : ResourceConfig F) × Elem rc rcs
      × (rc.enabled ≡ true)
      × (rc.circuit_breaker_rule.enabled ≡ true)
      × (r.resource ≡ rc.name)
      × IsUsable r

  to_circuit_breaker_rules-IsOf :
      (config : SentinelConfig F) (rc : ResourceConfig F) (r : CircuitBreakerRule F)
      → Elem r (to_circuit_breaker_rules config rc)
      → (rc.enabled ≡ true)
        × (rc.circuit_breaker_rule.enabled ≡ true)
        × (r.resource ≡ rc.name)
        × IsUsable r
  unfolding to_circuit_breaker_rules
  to_circuit_breaker_rules-IsOf config rc r h =
      go (rc.enabled && rc.circuit_breaker_rule.enabled) refl h
    where
      go :
          (b : Bool)
          → (rc.enabled && rc.circuit_breaker_rule.enabled) ≡ b
          → Elem r (if b then cb_rule_of config rc ∷ [] else [])
          → (rc.enabled ≡ true)
            × (rc.circuit_breaker_rule.enabled ≡ true)
            × (r.resource ≡ rc.name)
            × IsUsable r
      go true e (inl f) = (
        ground arith,
        ground arith,
        ap (λ x. x.resource) f,
        subst IsUsable (sym f) (
          or_else_pos config.retry_timeout_ms 5000 (omega arith),
          or_else_pos rc.circuit_breaker_rule.min_request_amount _
              (or_else_pos config.min_request_amount 10 (omega arith)),
          or_else_pos rc.circuit_breaker_rule.stat_interval_ms _
              (or_else_pos config.stat_interval_ms 5000 (omega arith)),
        ),
      )
      go true e (inr f) = absurd f
      go false e f = absurd f

  gather-IsOf :
      (config : SentinelConfig F) (rcs : List (ResourceConfig F)) (g : Gathered F)
      (r : CircuitBreakerRule F)
      → Elem r (gather config rcs g).cb_rules
      → Elem r g.cb_rules ⊎ IsOf rcs r
  unfolding gather
  gather-IsOf config [] g r h = inl h
  gather-IsOf config (rc ∷ rcs) g r h = elim (gather-IsOf config rcs (gather_one config rc g) r h) [
    | inl k ↦ one (rc.enabled) k
    | inr (rd, m, a, b, c, d) ↦ inr (rd, inr m, a, b, c, d)
  ]
    where
      one :
          (b : Bool)
          → Elem r
              (if b
                then record {
                  resource_map = assign rc.path rc.name g.resource_map;
                  flow_rules = g.flow_rules ++ to_flow_rules rc;
                  cb_rules = g.cb_rules ++ to_circuit_breaker_rules config rc;
                }
                else g).cb_rules
          → Elem r g.cb_rules ⊎ IsOf (rc ∷ rcs) r
      one false k = inl k
      one true k = elim ((Elem-append r g.cb_rules (to_circuit_breaker_rules config rc)).0 k) [
        | inl old ↦ inl old
        | inr new ↦
            let (a, b, c, d) = to_circuit_breaker_rules-IsOf config rc r new in
            inr (rc, inl refl, a, b, c, d)
      ]

  -- If loadRules succeeds, every circuit breaker rule that it loads is one of an enabled resource of
  -- the configuration whose circuit breaker is enabled, has its name, and has a positive timeout, a
  -- positive least number of requests and a positive interval, whatever the configuration leaves out.
  pub load_rules-IsOf :
      (managers : RuleManagers F) (s : Sentinel F) (r : CircuitBreakerRule F)
      → (load_rules managers s).0 ≡ ok tt
      → Elem r (load_rules managers s).1.loaded_cb
      → IsOf s.config.resources r
  unfolding load_rules
  load_rules-IsOf managers s r =
      go (managers.check_flow g.flow_rules) (managers.check_cb g.cb_rules)
    where
      g : Gathered F
      g = gather s.config s.config.resources nothing_gathered

      go :
          (a b : Option Error)
          → (behind_loop s a b).0 ≡ ok tt
          → Elem r (behind_loop s a b).1.loaded_cb
          → IsOf s.config.resources r
      go (some e) b f h = cc
      go none (some e) f h = cc
      go none none f h = elim (gather-IsOf s.config s.config.resources nothing_gathered r h) [
        | inl n ↦ absurd n
        | inr x ↦ x
      ]
