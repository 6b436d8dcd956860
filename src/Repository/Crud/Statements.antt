-- ===== src/Repository/Crud/Statements.antt =====
-- What statements that succeeded through the repository did in the session.
use go_admin.Common.{◌≡◌, refl, ap, ◌∙◌, String, List, ◌∷◌}
use go_admin.Outcome.{Outcome, ok, err, panic}
use go_admin.Repository.Query.{QueryBuilder, apply_where}
use go_admin.Repository.Db.{Table, wrap_db_err}
use go_admin.Repository.Crud.{Model, run_delete, batch_create}

pub wrap_db_err-eq-ok :
    {A : Type 0} (op : String) (r : Outcome A) {a : A} → wrap_db_err op r ≡ ok a → r ≡ ok a
unfolding wrap_db_err
wrap_db_err-eq-ok op (ok b) h = h
wrap_db_err-eq-ok op (err e) h = cc
wrap_db_err-eq-ok op panic h = cc

module _ {Db T : Type 0} (table : Table Db T) (model : Model T) where
  -- A statement that succeeded through the repository succeeded in the session.
  pub run_delete-eq-ok :
      (qb : QueryBuilder) (db db' : Db)
      → run_delete table model qb db ≡ (ok tt, db')
      → table.delete (apply_where qb) model.blank db ≡ (ok tt, db')
  unfolding run_delete
  run_delete-eq-ok qb db db' h = go (table.delete (apply_where qb) model.blank db) refl h
    where
      go :
          (r : Outcome (Unit {0}) × Db)
          → table.delete (apply_where qb) model.blank db ≡ r
          → ◌≡◌ {A = Outcome (Unit {0}) × Db}
              (wrap_db_err "repository Delete" r.0, r.1)
              (ok tt, db')
          → table.delete (apply_where qb) model.blank db ≡ (ok tt, db')
      go (ok u, d) e k = e ∙ k
      go (err x, d) e k = absurd (cc)
      go (panic, d) e k = absurd (cc)

  pub batch_create-eq-ok :
      (m : T) (ms : List T) (db db' : Db)
      → batch_create table model (m ∷ ms) db ≡ (ok tt, db')
      → (ms' : List T) × (table.insert (m ∷ ms) db ≡ (ok ms', db'))
  unfolding batch_create
  batch_create-eq-ok m ms db db' h = go (table.insert (m ∷ ms) db) refl h
    where
      answer : Outcome (List T) → Outcome (Unit {0})
      answer r = elim (wrap_db_err "repository BatchCreate" r) [
        | ok _ ↦ ok tt
        | err e ↦ err e
        | panic ↦ panic
      ]

      go :
          (r : Outcome (List T) × Db)
          → table.insert (m ∷ ms) db ≡ r
          → ◌≡◌ {A = Outcome (Unit {0}) × Db} (answer r.0, r.1) (ok tt, db')
          → (ms' : List T) × (table.insert (m ∷ ms) db ≡ (ok ms', db'))
      go (ok ms', d) e k = (ms', e ∙ ap (λ x. (ok ms', x)) (ap (λ x. x.1) k))
      go (err x, d) e k = absurd (cc)
      go (panic, d) e k = absurd (cc)
