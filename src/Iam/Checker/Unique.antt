-- ===== src/Iam/Checker/Unique.antt =====
-- lo.UniqBy as internal/modules/iam/service/permission_checker.go uses it.
use go_admin.Common.{
  ℕ, ◌≡◌, ◌↔◌, sym, subst, inl, inr, List, [], ◌∷◌, map, nat_eq, contains, contains_iff, Elem,
  SameElems, Bool-cases, arith,
}
use go_admin.Iam.Model.{Permission}
use go_admin.Iam.Checker.{uniq_from, uniq_by_id}

abbrev pub ids : List Permission → List ℕ
ids ps = map (λ p. p.id) ps

abbrev pub AreDistinct : List ℕ → Type 0
AreDistinct [] = Unit
AreDistinct (x ∷ xs) = (¬ Elem x xs) × AreDistinct xs

-- The ids that stay are those that were not seen before.
ids-uniq_from :
    (seen : List ℕ) (ps : List Permission) (i : ℕ)
    → Elem i (ids (uniq_from seen ps)) ↔ (Elem i (ids ps) × ¬ Elem i seen)
unfolding uniq_from
ids-uniq_from seen [] i = ground arith
ids-uniq_from seen (p ∷ ps) i = elim (Bool-cases (contains seen p.id)) [
  | inl old ↦
      let was : i ≡ p.id → Elem i seen =
        λ e. subst (λ x. Elem x seen) (sym e) ((contains_iff seen p.id).0 old) in
      rw old (ground (arith, was, ids-uniq_from seen ps i))
  | inr fresh ↦
      let new : i ≡ p.id → ¬ Elem i seen =
        λ e m. cc (fresh, (contains_iff seen p.id).1 (subst (λ x. Elem x seen) e m)) in
      rw fresh (ground (arith, new, ids-uniq_from (p.id ∷ seen) ps i))
]

uniq_from-AreDistinct :
    (seen : List ℕ) (ps : List Permission) → AreDistinct (ids (uniq_from seen ps))
unfolding uniq_from
uniq_from-AreDistinct seen [] = tt
uniq_from-AreDistinct seen (p ∷ ps) = ground (
  arith,
  uniq_from-AreDistinct seen ps,
  uniq_from-AreDistinct (p.id ∷ seen) ps,
  ids-uniq_from (p.id ∷ seen) ps p.id,
)

-- The permissions that are kept have pairwise distinct ids, and these are exactly the ids of the
-- permissions that were given.
pub uniq_by_id-AreDistinct :
    (ps : List Permission)
    → AreDistinct (ids (uniq_by_id ps)) × SameElems (ids (uniq_by_id ps)) (ids ps)
unfolding uniq_by_id
uniq_by_id-AreDistinct ps =
    (uniq_from-AreDistinct [] ps, λ i. ground (arith, ids-uniq_from [] ps i))
