-- ===== src/RateLimit/Rules/Loaded.antt =====
-- What loadRules of sentinel.go leaves: the map from paths to resources, and the rules.
use go_admin.Common.{
  ◌≡◌, refl, ap, ◌∙◌, Bool, true, false, ◌&&◌, inl, inr, Option, none, some, List, [], ◌∷◌, Bytes,
  if◌then◌else◌, ◌==◌, text_eq, find, find-assign, Bool-cases,
}
use go_admin.Outcome.{Error, Outcome, ok}
use go_admin.RateLimit.Config.{ResourceConfig, SentinelConfig}
use go_admin.RateLimit.Rules.{
  Gathered, gather_one, gather, nothing_gathered, Sentinel, RuleManagers, load_rules, load_both,
  named, by_name, global_default, match_resource, blocked, guarded, middleware,
}

abbrev or_global : Option Bytes → Bytes
or_global none = global_default
or_global (some name) = name

named_lem : (o : Option Bytes) → named o ≡ (or_global o, true)
named_lem none = refl
named_lem (some n) = refl

module _ {F : Type 0} where
  -- An enabled resource with the path.
  abbrev pub serves : Bytes → ResourceConfig F → Bool
  serves path rc = rc.enabled && (rc.path == path)

  -- The name of the last enabled resource with the path, or `d` if there is none.
  abbrev pub last_name : Bytes → List (ResourceConfig F) → Bytes → Bytes
  last_name path [] d = d
  last_name path (rc ∷ rcs) d = last_name path rcs (if serves path rc then rc.name else d)

  -- loadRules behind its loop.
  abbrev pub behind_loop :
      Sentinel F → Option Error → Option Error → Outcome (Unit {0}) × Sentinel F
  behind_loop s a b =
      let g = gather s.config s.config.resources nothing_gathered in
      load_both g a b (record s { resource_map = g.resource_map })

  gather_one-find :
      (config : SentinelConfig F) (path : Bytes) (rc : ResourceConfig F) (g : Gathered F)
      → or_global (find path (gather_one config rc g).resource_map)
        ≡ (if serves path rc then rc.name else or_global (find path g.resource_map))
  gather_one-find config path rc g = elim (Bool-cases rc.enabled) [
    | inl e ↦ rw e (rw (find-assign rc.path path rc.name g.resource_map) (go (rc.path == path)))
    | inr e ↦ rw e refl
  ]
    where
      go :
          (b : Bool)
          → or_global (if b then some rc.name else find path g.resource_map)
            ≡ (if b then rc.name else or_global (find path g.resource_map))
      go true = refl
      go false = refl

  gather-find :
      (config : SentinelConfig F) (path : Bytes) (rcs : List (ResourceConfig F)) (g : Gathered F)
      → or_global (find path (gather config rcs g).resource_map)
        ≡ last_name path rcs (or_global (find path g.resource_map))
  unfolding gather
  gather-find config path [] g = refl
  gather-find config path (rc ∷ rcs) g =
      gather-find config path rcs (gather_one config rc g)
      ∙ ap (last_name path rcs) (gather_one-find config path rc g)

  module _ (managers : RuleManagers F) (s : Sentinel F) where
    load_rules-map :
        (load_rules managers s).1.resource_map
        ≡ (gather s.config s.config.resources nothing_gathered).resource_map
    unfolding load_rules
    load_rules-map =
        go (managers.check_flow (gather s.config s.config.resources nothing_gathered).flow_rules)
          (managers.check_cb (gather s.config s.config.resources nothing_gathered).cb_rules)
      where
        go :
            (a b : Option Error)
            → (behind_loop s a b).1.resource_map
              ≡ (gather s.config s.config.resources nothing_gathered).resource_map
        go (some e) b = refl
        go none (some e) = refl
        go none none = refl

    match-load_rules :
        (path : Bytes)
        → match_resource path (load_rules managers s).1
          ≡ (last_name path s.config.resources global_default, true)
    unfolding match_resource find
    match-load_rules path =
        ap (λ m. named (find path m)) load_rules-map
        ∙ (named_lem (find path (gather s.config s.config.resources nothing_gathered).resource_map)
            ∙ ap (λ n. (n, true)) (gather-find s.config path s.config.resources nothing_gathered))

    -- Behind loadRules, whether it returns an error or not: the middleware guards every request,
    -- with the name of the last enabled resource of the configuration that has its path, and with
    -- "global_default" if there is none, and answers it itself exactly if sentinel blocks that
    -- name.
    pub middleware-load_rules :
        (blocks : Bytes → Bool) (path : Bytes) (instance' : Option (Sentinel F))
        → let name = last_name path s.config.resources global_default in
          middleware blocks path (some (load_rules managers s).1) instance'
          ≡ ok (if blocks name then blocked name else guarded name)
    unfolding middleware
    middleware-load_rules blocks path instance' =
        ap (λ x. ok (by_name blocks x)) (match-load_rules path)
