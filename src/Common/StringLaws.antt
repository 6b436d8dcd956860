-- ===== src/Common/StringLaws.antt =====
-- What the functions of Go's package strings in use decide.
use Prim.Native.Nat.{ℕ, zero, suc, ◌+◌, ◌-◌}
use mathlib.Core.Path.{◌≡◌, refl, ap, sym, subst}
use mathlib.Core.Logic.{◌↔◌, inr}
use mathlib.Core.Bool.{true}
use mathlib.Core.Option.{some}
use mathlib.Core.List.{List, [], ◌∷◌, ◌++◌}
use native.Mathlib.Omega.{arith}
use go_admin.Common.Tests.{nat_beq_iff, list_beq_iff}
use go_admin.Common.Lists.{length, take, drop, Elem}
use go_admin.Common.Strings.{Bytes, has_prefix, has_suffix, trim_suffix, cut}

pub length-append {ℓ} : {A : Type ℓ} (xs ys : List A) → length (xs ++ ys) ≡ length xs + length ys
length-append [] ys = omega arith
length-append (x ∷ xs) ys = omega (arith, length-append xs ys)

pub take-append-drop {ℓ} : {A : Type ℓ} (n : ℕ) (xs : List A) → take n xs ++ drop n xs ≡ xs
take-append-drop zero xs = refl
take-append-drop (suc n) [] = refl
take-append-drop (suc n) (x ∷ xs) = ap (◌∷◌ x) (take-append-drop n xs)

drop_front {ℓ} : {A : Type ℓ} (xs ys : List A) → drop (length xs) (xs ++ ys) ≡ ys
drop_front [] ys = refl
drop_front (x ∷ xs) ys = drop_front xs ys

take_front {ℓ} : {A : Type ℓ} (xs ys : List A) → take (length xs) (xs ++ ys) ≡ xs
take_front [] ys = refl
take_front (x ∷ xs) ys = ap (◌∷◌ x) (take_front xs ys)

pub has_prefix_iff : (s p : Bytes) → (has_prefix s p ≡ true) ↔ ((rest : Bytes) × (s ≡ p ++ rest))
has_prefix_iff s [] = (λ _. (s, refl), λ _. refl)
has_prefix_iff [] (b ∷ p) = (λ h. cc, λ r. cc (r.1))
has_prefix_iff (a ∷ s) (b ∷ p) = (
  λ h.
      let (rest, e) = (has_prefix_iff s p).0 (ground arith) in
      (rest, ground (arith, nat_beq_iff a b)),
  λ r. ground (arith, nat_beq_iff a b, (has_prefix_iff s p).1 (r.0, cc (r.1))),
)

-- A text with a suffix is what TrimSuffix leaves, followed by the suffix.
pub trim_suffix-append : (s p : Bytes) → has_suffix s p ≡ true → s ≡ trim_suffix s p ++ p
trim_suffix-append s p h =
    let tail_is : drop (length s - length p) s ≡ p =
      (list_beq_iff (drop (length s - length p) s) p).0 (ground arith) in
    rw h (
      sym (
        subst (λ x. take (length s - length p) s ++ x ≡ s) tail_is
          (take-append-drop (length s - length p) s)))

front : (s p : Bytes) → length (s ++ p) - length p ≡ length s
front s p = omega (arith, length-append {0} s p)

pub has_suffix-append : (s p : Bytes) → has_suffix (s ++ p) p ≡ true
has_suffix-append s p =
    rw (front s p) (rw (drop_front s p) (ground (arith, length-append s p, list_beq_iff p p)))

pub trim_suffix_lem : (s p : Bytes) → trim_suffix (s ++ p) p ≡ s
trim_suffix_lem s p = rw (has_suffix-append s p) (rw (front s p) (take_front s p))

-- Splitting at the first separator.
pub cut-eq-some :
    (sep : ℕ) (s before after : Bytes)
    → cut sep s ≡ (before, some after)
    → (s ≡ before ++ (sep ∷ after)) × ¬ Elem sep before
cut-eq-some sep [] before after h = absurd (cc (ap (λ r. r.1) h))
cut-eq-some sep (c ∷ s) [] after h = (ground (arith, nat_beq_iff c sep), λ m. m)
cut-eq-some sep (c ∷ s) (b ∷ before) after h =
    let (e, n) = cut-eq-some sep s before after (ground (arith, nat_beq_iff c sep)) in
    (ground (arith, nat_beq_iff c sep), ground (arith, nat_beq_iff c sep))

pub cut_lem :
    (sep : ℕ) (before after : Bytes)
    → ¬ Elem sep before
    → cut sep (before ++ (sep ∷ after)) ≡ (before, some after)
cut_lem sep [] after n = ground (arith, nat_beq_iff sep sep)
cut_lem sep (c ∷ before) after n =
    ground (arith, nat_beq_iff c sep, cut_lem sep before after (λ m. n (inr m)))
