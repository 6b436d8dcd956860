-- ===== src/Outcome.antt =====
-- Go's error results and panics, and methods that work on the state of the database. What a method
-- wrote before it failed stays written, so the state comes back beside an error and a panic too.
-- Errors: the sentinels of pkg/repository/db.go, `errors.New`, and `errors.Wrap` (also `fmt.Errorf`
-- with %w), whose message is kept without its arguments.
pub mod Laws
use go_admin.Common.{ℕ, String, Bool, true, false, Option, none, some}

pub data Error : Type 0 where
  not_found multiple no_primary_key invalid_model : Error
  new : String → Error
  wrap : String → Error → Error
  -- an error of a library or of the database
  outside : ℕ → Error

pub data Outcome {ℓ} (A : Type ℓ) : Type ℓ where
  ok : A → Outcome A
  err : Error → Outcome A
  panic : Outcome A

-- if err != nil { return errors.Wrap(err, message) }
abbrev pub or_wrap {ℓ} : {A : Type ℓ} → String → Outcome A → Outcome A
or_wrap message (ok a) = ok a
or_wrap message (err e) = err (wrap message e)
or_wrap message panic = panic

-- A method over the state `S`.
abbrev pub Act : Type 0 → Type 0 → Type 0
Act S A = S → Outcome A × S

module _ {S A B : Type 0} where
  abbrev pub continue : Outcome A → (A → Act S B) → Act S B
  continue (ok a) f s = f a s
  continue (err e) f s = (err e, s)
  continue panic f s = (panic, s)

  infixl 10 ◌>>=◌ ◌>>◌
  unfoldable pub ◌>>=◌ : Act S A → (A → Act S B) → Act S B
  ◌>>=◌ m f s = let (r, s') = m s in continue r f s'

  abbrev pub ◌>>◌ : Act S A → Act S B → Act S B
  m >> n = m >>= λ _. n

module _ {S A : Type 0} where
  abbrev pub pure : A → Act S A
  pure a s = (ok a, s)

  abbrev pub fail : Error → Act S A
  fail e s = (err e, s)

  -- A method whose error is wrapped before it is returned.
  unfoldable pub wrapped : String → Act S A → Act S A
  wrapped message m s = let (r, s') = m s in (or_wrap message r, s')

  -- A method that only reads.
  abbrev pub reads : (S → Outcome A) → Act S A
  reads f s = (f s, s)
