-- ===== src/Common/Lists.antt =====
-- Lists: native lengths, Boolean filters and membership as a predicate by recursion.
use Prim.Native.Nat.{ℕ, zero, suc, min, ◌-◌, ◌≤◌}
use mathlib.Core.Path.{◌≡◌, refl, ap, sym, subst}
use mathlib.Core.Logic.{◌↔◌, ◌⊎◌, inl, inr}
use mathlib.Core.Bool.{Bool, true, false, ◌||◌}
use mathlib.Core.List.{List, [], ◌∷◌, ◌++◌, map}
use native.Mathlib.Omega.{arith}
use go_admin.Common.Tests.{Eq, ◌==◌, if◌then◌else◌}

module _ {ℓ} {A : Type ℓ} where
  abbrev pub length : List A → ℕ
  length [] = 0
  length (x ∷ xs) = suc (length xs)

  abbrev pub take : ℕ → List A → List A
  take zero xs = []
  take (suc n) [] = []
  take (suc n) (x ∷ xs) = x ∷ take n xs

  abbrev pub drop : ℕ → List A → List A
  drop zero xs = xs
  drop (suc n) [] = []
  drop (suc n) (x ∷ xs) = drop n xs

  -- lo.Filter
  unfoldable pub filter : (A → Bool) → List A → List A
  filter p [] = []
  filter p (x ∷ xs) = let rest = filter p xs in if p x then x ∷ rest else rest

module _ {A : Type 0} where
  -- Membership. It computes to sums, which the tactics take apart.
  abbrev pub Elem : A → List A → Type 0
  Elem a [] = ⊥
  Elem a (x ∷ xs) = (a ≡ x) ⊎ Elem a xs

  -- The same elements, order and repetition forgotten.
  abbrev pub SameElems : List A → List A → Type 0
  SameElems xs ys = (a : A) → Elem a xs ↔ Elem a ys

  pub Elem-append : (a : A) (xs ys : List A) → Elem a (xs ++ ys) ↔ (Elem a xs ⊎ Elem a ys)
  Elem-append a [] ys = ground arith
  Elem-append a (x ∷ xs) ys = ground (arith, Elem-append a xs ys)

  pub Elem-filter :
      (p : A → Bool) (a : A) (xs : List A) → Elem a (filter p xs) ↔ (Elem a xs × (p a ≡ true))
  unfolding filter
  Elem-filter p a [] = ground arith
  Elem-filter p a (x ∷ xs) = ground (arith, Elem-filter p a xs)

  pub length-filter-le : (p : A → Bool) (xs : List A) → length (filter p xs) ≤ length xs
  unfolding filter
  length-filter-le p [] = omega arith
  length-filter-le p (x ∷ xs) = ground (arith, length-filter-le p xs)

module _ {A B : Type 0} where
  pub Elem-map : (f : A → B) (a : A) (xs : List A) → Elem a xs → Elem (f a) (map f xs)
  Elem-map f a [] h = absurd h
  Elem-map f a (x ∷ xs) (inl e) = inl (ap f e)
  Elem-map f a (x ∷ xs) (inr h) = inr (Elem-map f a xs h)

  pub Elem_of_map :
      (f : A → B) (b : B) (xs : List A) → Elem b (map f xs) → (a : A) × Elem a xs × (b ≡ f a)
  Elem_of_map f b [] h = absurd h
  Elem_of_map f b (x ∷ xs) (inl e) = (x, inl refl, e)
  Elem_of_map f b (x ∷ xs) (inr h) = let (a, m, e) = Elem_of_map f b xs h in (a, inr m, e)

module _ {A : Type 0} ⦃e : Eq A⦄ where
  -- lo.Contains
  unfoldable pub contains : List A → A → Bool
  contains [] a = false
  contains (x ∷ xs) a = a == x || contains xs a

  pub contains_iff : (xs : List A) (a : A) → (contains xs a ≡ true) ↔ Elem a xs
  unfolding contains
  contains_iff [] a = ground arith
  contains_iff (x ∷ xs) a = ground (arith, e.beq_iff a x, contains_iff xs a)

-- The part of a list behind an offset, up to a limit.
pub length-take {ℓ} : {A : Type ℓ} (n : ℕ) (xs : List A) → length (take n xs) ≡ min n (length xs)
length-take zero xs = omega arith
length-take (suc n) [] = omega arith
length-take (suc n) (x ∷ xs) = omega (arith, length-take n xs)

pub length-drop {ℓ} : {A : Type ℓ} (n : ℕ) (xs : List A) → length (drop n xs) ≡ length xs - n
length-drop zero xs = omega arith
length-drop (suc n) [] = omega arith
length-drop (suc n) (x ∷ xs) = omega (arith, length-drop n xs)

module _ {A : Type 0} where
  pub Elem_of_take : (n : ℕ) (a : A) (xs : List A) → Elem a (take n xs) → Elem a xs
  Elem_of_take zero a xs h = absurd h
  Elem_of_take (suc n) a [] h = absurd h
  Elem_of_take (suc n) a (x ∷ xs) (inl e) = inl e
  Elem_of_take (suc n) a (x ∷ xs) (inr h) = inr (Elem_of_take n a xs h)

  pub Elem_of_drop : (n : ℕ) (a : A) (xs : List A) → Elem a (drop n xs) → Elem a xs
  Elem_of_drop zero a xs h = h
  Elem_of_drop (suc n) a [] h = absurd h
  Elem_of_drop (suc n) a (x ∷ xs) h = inr (Elem_of_drop n a xs h)

-- A property of every element.
abbrev pub All {ℓ κ} : {A : Type ℓ} → (A → Type κ) → List A → Type κ
All P [] = Unit
All P (x ∷ xs) = P x × All P xs

module _ {κ} {A : Type 0} (P : A → Type κ) where
  pub All-elem : (xs : List A) (a : A) → All P xs → Elem a xs → P a
  All-elem [] a h m = absurd m
  All-elem (x ∷ xs) a h (inl e) = subst P (sym e) h.0
  All-elem (x ∷ xs) a h (inr m) = All-elem xs a h.1 m
