-- ===== src/Repository/Crud/Laws.antt =====
-- What the code relies on in xorm and the database, for the statements on one table. `rows` are the
-- rows that the table holds, `sat c r` whether the database finds the condition `c` true of `r`.
use go_admin.Common.{
  ℕ, ◌≡◌, ◌≢◌, ◌↔◌, ◌⊎◌, Bool, true, false, Option, none, some, List, map, ℤ, pos, negsuc, Elem,
  filter, length, take, drop,
}
use go_admin.Outcome.{ok}
use go_admin.Repository.Query.{Select, Cond}
use go_admin.Repository.Query.Meaning.{BuilderLaws, holds}
use go_admin.Repository.Db.{Table}
use go_admin.Repository.Crud.{Model}

-- LIMIT n OFFSET o. Nothing is assumed of a negative limit or offset.
abbrev pub IsWindow : {T : Type 0} → Option (ℤ × ℤ) → List T → List T → Type 0
IsWindow none all xs = xs ≡ all
IsWindow (some (pos n, pos o)) all xs = xs ≡ take n (drop o all)
IsWindow (some (pos n, negsuc o)) all xs = Unit
IsWindow (some (negsuc n, o)) all xs = Unit

pub record TableLaws {Db T : Type 0} (table : Table Db T) (model : Model T) (rows : Db → List T)
    (sat : Cond → T → Bool) : Type 0 where
  pub builder : BuilderLaws sat
  -- The matching rows, in the order in which the database gives them.
  pub arranged : Select → Db → List T
  pub arranged_elem :
      (q : Select) (db : Db) (a : T)
      → Elem a (arranged q db) ↔ (Elem a (rows db) × (holds sat q.cond a ≡ true))
  pub length-arranged :
      (q : Select) (db : Db) → length (arranged q db) ≡ length (filter (holds sat q.cond) (rows db))
  pub find_ok :
      (q : Select) (db : Db) (xs : List T)
      → table.find q db ≡ ok xs
      → IsWindow q.limit (arranged q db) xs
  pub count_ok :
      (c : Option Cond) (db : Db) (n : ℕ)
      → table.count c db ≡ ok n
      → n ≡ length (filter (holds sat c) (rows db))
  -- A row without the columns that an insert fills in.
  pub erase : T → T
  pub insert_ok :
      (ms ms' : List T) (db db' : Db)
      → table.insert ms db ≡ (ok ms', db')
      → (map erase ms' ≡ map erase ms)
        × ((a : T) → Elem a (rows db') ↔ (Elem a (rows db) ⊎ Elem a ms'))
  -- A delete by condition alone, and one by the primary key of the bean alone.
  pub delete_ok :
      (c : Option Cond) (db db' : Db)
      → c ≢ none
      → table.delete c model.blank db ≡ (ok tt, db')
      → (a : T) → Elem a (rows db') ↔ (Elem a (rows db) × (holds sat c a ≡ false))
  pub delete_id_ok :
      (id : ℕ) (db db' : Db)
      → id ≢ 0
      → table.delete none (model.set_id id model.blank) db ≡ (ok tt, db')
      → (a : T) → Elem a (rows db') ↔ (Elem a (rows db) × (model.id_of a ≢ id))

-- The writes to one table leave the rows of another alone.
pub record Apart {Db T U : Type 0} (table : Table Db T) (others : Db → List U) : Type 0 where
  pub insert_apart : (ms : List T) (db : Db) → others (table.insert ms db).1 ≡ others db
  pub update_apart : (id : ℕ) (m : T) (db : Db) → others (table.update id m db).1 ≡ others db
  pub delete_apart :
      (c : Option Cond) (m : T) (db : Db) → others (table.delete c m db).1 ≡ others db
