-- ===== src/Repository/Db.antt =====
-- pkg/repository/db.go: transactions, and the error that the repository returns. xorm and the
-- database are parameters: `Session` has the transaction statements, `Table` the statements on one
-- table, over a type `Db` of states that a session reads and writes. Whether the context carries a
-- session, that is, whether the call stands in a transaction, is the argument `in_tx`.
pub mod Atomic
use go_admin.Common.{ℕ, String, Bool, true, false, Option, none, some, List}
use go_admin.Outcome.{
  Error, not_found, multiple, no_primary_key, invalid_model, new, wrap, outside, Outcome, ok, err,
  panic, Act,
}
use go_admin.Repository.Query.{Select, Cond}

-- A session in a transaction: the data that is committed, which all others see, and the data that
-- its own statements see.
pub record Tx (Db : Type 0) : Type 0 where
  pub committed : Db
  pub own : Db

-- xorm.Session's Begin, Commit, Rollback and Close; Close leaves the data that the next session sees.
pub record Session (Db : Type 0) : Type 0 where
  pub begin : Db → Outcome (Tx Db)
  pub commit : Act (Tx Db) (Unit {0})
  pub rollback : Tx Db → Tx Db
  pub close : Tx Db → Db

-- xorm.Session's Find, Count, Insert, Update, Delete and SQL(…).Find on the table of `T`. Insert
-- gives the rows back with the columns that the database filled in.
pub record Table (Db T : Type 0) : Type 0 where
  pub find : Select → Db → Outcome (List T)
  pub count : Option Cond → Db → Outcome ℕ
  pub insert : List T → Act Db (List T)
  pub update : ℕ → T → Act Db (Unit {0})
  pub delete : Option Cond → T → Act Db (Unit {0})

-- errors.Is(err, …) for one of the four sentinels
unfoldable pub is_sentinel : Error → Bool
is_sentinel not_found = true
is_sentinel multiple = true
is_sentinel no_primary_key = true
is_sentinel invalid_model = true
is_sentinel (new _) = false
is_sentinel (outside _) = false
is_sentinel (wrap _ e) = is_sentinel e

abbrev keep_or_wrap : Bool → String → Error → Error
keep_or_wrap true op e = e
keep_or_wrap false op e = wrap op e

-- wrapDBErr
unfoldable pub wrap_db_err : {A : Type 0} → String → Outcome A → Outcome A
unfolding is_sentinel
wrap_db_err op (ok a) = ok a
wrap_db_err op (err e) = err (keep_or_wrap (is_sentinel e) op e)
wrap_db_err op panic = panic

module _ {Db A : Type 0} (session : Session Db) where
  -- The deferred function of Transaction, unless the transaction is committed.
  abbrev pub rolled_back : Outcome A → Tx Db → Outcome A × Tx Db
  rolled_back r tx = (r, session.rollback tx)

  -- What Transaction does with the outcome of its callback, and with that of Commit.
  abbrev pub settle_commit : A → Outcome (Unit {0}) × Tx Db → Outcome A × Tx Db
  settle_commit a (ok _, tx) = (ok a, tx)
  settle_commit a (err e, tx) = rolled_back (err e) tx
  settle_commit a (panic, tx) = rolled_back panic tx

  abbrev pub settle : Outcome A → Tx Db → Outcome A × Tx Db
  settle (ok a) tx = settle_commit a (session.commit tx)
  settle (err e) tx = rolled_back (err e) tx
  settle panic tx = rolled_back panic tx

  -- The deferred Close.
  abbrev pub closed : Outcome A × Tx Db → Outcome A × Db
  closed (r, tx) = (r, session.close tx)

  abbrev pub when_begun : Outcome (Tx Db) → Act Db A → Act Db A
  when_begun (ok tx) fn db = let (r, own) = fn tx.own in closed (settle r (record tx { own = own }))
  when_begun (err e) fn db = (err e, db)
  when_begun panic fn db = (panic, db)

  -- Transaction: a callback inside a transaction joins it.
  unfoldable pub transaction : Bool → (Bool → Act Db A) → Act Db A
  transaction true fn db = fn true db
  transaction false fn db = when_begun (session.begin db) (fn true) db
