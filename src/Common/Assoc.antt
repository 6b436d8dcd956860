-- ===== src/Common/Assoc.antt =====
-- Go maps as association lists.
use mathlib.Core.Path.{◌≡◌}
use mathlib.Core.Option.{Option, none, some}
use mathlib.Core.List.{List, [], ◌∷◌}
use native.Mathlib.Omega.{arith}
use go_admin.Common.Tests.{Eq, ◌==◌, if◌then◌else◌}

module _ {K V : Type 0} ⦃e : Eq K⦄ where
  -- m[key]
  unfoldable pub find : K → List (K × V) → Option V
  find key [] = none
  find key ((k, x) ∷ m) = if k == key then some x else find key m

  -- delete(m, key)
  unfoldable pub erase : K → List (K × V) → List (K × V)
  erase key [] = []
  erase key ((k, x) ∷ m) = let rest = erase key m in if k == key then rest else (k, x) ∷ rest

  -- m[key] = x
  unfoldable pub assign : K → V → List (K × V) → List (K × V)
  assign key x m = (key, x) ∷ erase key m

  pub find-erase :
      (k j : K) (m : List (K × V)) → find j (erase k m) ≡ (if k == j then none else find j m)
  unfolding find erase
  find-erase k j [] = ground arith
  find-erase k j ((i, x) ∷ m) =
      ground (arith, find-erase k j m, e.beq_iff i k, e.beq_iff i j, e.beq_iff k j)

  pub find-assign :
      (k j : K) (x : V) (m : List (K × V))
      → find j (assign k x m) ≡ (if k == j then some x else find j m)
  unfolding find assign
  find-assign k j x m = ground (arith, find-erase k j m)
