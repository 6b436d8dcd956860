-- ===== src/RateLimit/Ip/Cleaned.antt =====
-- What a round of the cleaner of the limiter by address takes.
use go_admin.Common.{
  ℕ, ◌≡◌, refl, ap, sym, ◌∙◌, Bool, true, false, inl, inr, none, some, List, [], ◌∷◌, Bytes,
  if◌then◌else◌, ◌==◌, text_eq, nat_eq, list_beq_iff, Elem, Bool-cases, subst, find, erase,
  find-erase, arith,
}
use mathlib.Core.Option.{some-injective}
use go_admin.RateLimit.Ip.{RateLimiterConfig, Shared, is_expired, clean_from, clean}
use go_admin.RateLimit.Ip.Sound.{Sound}

-- An address that was last seen too long ago, among some entries.
stale : ℕ → ℕ → Bytes → List (Bytes × ℕ) → Bool
stale expiry now ip [] = false
stale expiry now ip ((jp, last) ∷ m) =
    let rest = stale expiry now ip m in
    if jp == ip then (if is_expired expiry now last then true else rest) else rest

find-Elem : (ip : Bytes) (x : ℕ) (m : List (Bytes × ℕ)) → find ip m ≡ some x → Elem (ip, x) m
unfolding find
find-Elem ip x [] h = cc
find-Elem ip x ((jp, y) ∷ m) h = ground (arith, find-Elem ip x m, list_beq_iff jp ip)

Elem-stale :
    (expiry now : ℕ) (ip : Bytes) (x : ℕ) (m : List (Bytes × ℕ))
    → Elem (ip, x) m
    → is_expired expiry now x ≡ true
    → stale expiry now ip m ≡ true
unfolding stale
Elem-stale expiry now ip x [] h e = absurd h
Elem-stale expiry now ip x ((jp, y) ∷ m) (inl h) e =
    let same : jp == ip ≡ true = ground (arith, ap (λ p. p.0) h, list_beq_iff jp ip) in
    let old : is_expired expiry now y ≡ true =
      subst (λ z. is_expired expiry now z ≡ true) (ap (λ p. p.1) h) e in
    rw same (rw old refl)
Elem-stale expiry now ip x ((jp, y) ∷ m) (inr h) e =
    ground (arith, Elem-stale expiry now ip x m h e)

fresh-stale :
    (expiry now : ℕ) (ip : Bytes) (m : List (Bytes × ℕ))
    → ((x : ℕ) → Elem (ip, x) m → is_expired expiry now x ≡ false)
    → stale expiry now ip m ≡ false
unfolding stale
fresh-stale expiry now ip [] h = refl
fresh-stale expiry now ip ((jp, y) ∷ m) h =
    let rest = fresh-stale expiry now ip m (λ x e. h x (inr e)) in
    elim (Bool-cases (jp == ip)) [
      | inl same ↦
          let e : ip ≡ jp = sym ((list_beq_iff jp ip).0 same) in
          rw same (rw (h y (inl (ap (λ k. (k, y)) e))) rest)
      | inr other ↦ rw other rest
    ]

module _ {L : Type 0} where
  find-clean_from :
      (expiry now : ℕ) (ip : Bytes) (m : List (Bytes × ℕ)) (s : Shared L)
      → find ip (clean_from expiry now m s).limiter_map
        ≡ (if stale expiry now ip m then none else find ip s.limiter_map)
  unfolding clean_from stale
  find-clean_from expiry now ip [] s = refl
  find-clean_from expiry now ip ((jp, last) ∷ m) s =
      go (is_expired expiry now last) (stale expiry now ip m)
        (λ t. find-clean_from expiry now ip m t)
    where
      go :
          (b c : Bool)
          → ((t : Shared L)
              → find ip (clean_from expiry now m t).limiter_map
                ≡ (if c then none else find ip t.limiter_map))
          → find ip
              (clean_from expiry now m (
                if b
                then record s {
                  limiter_map = erase jp s.limiter_map;
                  last_seen = erase jp s.last_seen;
                }
                else s)).limiter_map
            ≡ (if (if jp == ip then (if b then true else c) else c)
                then none
                else find ip s.limiter_map)
      go true c h = ground (
        arith,
        h (record s { limiter_map = erase jp s.limiter_map; last_seen = erase jp s.last_seen }),
        find-erase jp ip s.limiter_map,
      )
      go false c h = ground (arith, h s)

  -- A round of the cleaner takes the limiters of exactly the addresses that were last seen more
  -- than the expiry time before it.
  pub find-clean :
      (cfg : RateLimiterConfig) (now : ℕ) (ip : Bytes) (last : ℕ) (s : Shared L)
      → Sound s
      → find ip s.last_seen ≡ some last
      → find ip (clean cfg now s).limiter_map
        ≡ (if is_expired cfg.expiry_time now last then none else find ip s.limiter_map)
  unfolding clean
  find-clean cfg now ip last s v e =
      find-clean_from cfg.expiry_time now ip s.last_seen s
      ∙ elim (Bool-cases (is_expired cfg.expiry_time now last)) [
        | inl old ↦
            rw
              (Elem-stale cfg.expiry_time now ip last s.last_seen (find-Elem ip last s.last_seen e)
                old)
              (rw old refl)
        | inr young ↦
            rw
              (fresh-stale cfg.expiry_time now ip s.last_seen (λ x m.
                subst (λ y. is_expired cfg.expiry_time now y ≡ false)
                  (some-injective _ _ (sym e ∙ v.once ip x m)) young))
              (rw young refl)
      ]
