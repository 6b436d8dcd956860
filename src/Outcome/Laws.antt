-- ===== src/Outcome/Laws.antt =====
-- Inversion of methods that returned, and methods that only read.
use go_admin.Common.{String, ◌≡◌, refl, arith}
use go_admin.Outcome.{Outcome, ok, err, panic, or_wrap, Act, continue, ◌>>=◌, wrapped}

pub or_wrap-eq-ok {ℓ} :
    {A : Type ℓ} (message : String) (r : Outcome A) {a : A} → or_wrap message r ≡ ok a → r ≡ ok a
or_wrap-eq-ok message (ok b) h = h
or_wrap-eq-ok message (err e) h = cc
or_wrap-eq-ok message panic h = cc

module _ {S A B : Type 0} where
  -- A sequence that returned: its first part did, and the rest from the state that it left.
  pub >>=-eq-ok :
      (m : Act S A) (f : A → Act S B) (s : S) {b : B} {t : S}
      → (m >>= f) s ≡ (ok b, t)
      → (a : A) × (u : S) × (m s ≡ (ok a, u)) × (f a u ≡ (ok b, t))
  unfolding ◌>>=◌
  >>=-eq-ok m f s {b} {t} h = go (m s) refl h
    where
      go :
          (r : Outcome A × S)
          → m s ≡ r
          → continue r.0 f r.1 ≡ (ok b, t)
          → (a : A) × (u : S) × (m s ≡ (ok a, u)) × (f a u ≡ (ok b, t))
      go (ok a, u) e k = (a, u, e, k)
      go (err x, u) e k = absurd (cc)
      go (panic, u) e k = absurd (cc)

module _ {S A : Type 0} where
  pub wrapped-eq-ok :
      (message : String) (m : Act S A) (s : S) {a : A} {t : S}
      → wrapped message m s ≡ (ok a, t)
      → m s ≡ (ok a, t)
  unfolding wrapped
  wrapped-eq-ok message m s h = ground arith

  -- It leaves the state as it was, whatever it answers.
  abbrev pub ReadsOnly : Act S A → Type 0
  ReadsOnly m = (s : S) → (m s).1 ≡ s
