-- ===== src/Repository/Crud.antt =====
-- pkg/repository/repository.go, and Find, First, Count and Delete of the builder in query.go: the
-- operations of a repository over one table.
pub mod Laws
pub mod Statements
pub mod Rows
use go_admin.Common.{
  ℕ, zero, String, Bool, true, false, Option, none, some, List, [], ◌∷◌, ℤ, pos, Bytes, text_eq,
}
use go_admin.Outcome.{
  Error, not_found, multiple, no_primary_key, invalid_model, Outcome, ok, err, panic, Act, ◌>>=◌,
  pure, fail, reads,
}
use go_admin.Repository.Query.{
  Value, num, Op, op_eq, Condition, Cond, QueryBuilder, new_query_builder, where_op, apply_filters,
  set_limit, set_offset, Select, apply_where, apply_select,
}
use go_admin.Repository.Meta.{Field, build_filters, ModelMeta, parse_model_meta}
use go_admin.Repository.Db.{Table, wrap_db_err}

-- A model type T: what reflection sees of a value, new(T), and its primary key field.
pub record Model (T : Type 0) : Type 0 where
  pub fields : T → List Field
  pub blank : T
  pub id_of : T → ℕ
  pub set_id : ℕ → T → T

module _ {Db T : Type 0} (table : Table Db T) (model : Model T) where
  -- QueryBuilder.Find
  unfoldable pub run_find : QueryBuilder → Db → Outcome (List T)
  unfolding apply_select wrap_db_err
  run_find qb db = wrap_db_err "repository Find" (table.find (apply_select qb) db)

  abbrev pub first_row : Outcome (List T) → Outcome T
  first_row (ok []) = err not_found
  first_row (ok (x ∷ xs)) = ok x
  first_row (err e) = err e
  first_row panic = panic

  -- QueryBuilder.First
  unfoldable pub run_first : QueryBuilder → Db → Outcome T
  unfolding run_find set_limit
  run_first qb db = first_row (run_find (set_limit (pos 1) qb) db)

  -- QueryBuilder.Count
  unfoldable pub run_count : QueryBuilder → Db → Outcome ℕ
  unfolding apply_where wrap_db_err
  run_count qb db = wrap_db_err "repository Count" (table.count (apply_where qb) db)

  -- QueryBuilder.Delete
  unfoldable pub run_delete : QueryBuilder → Act Db (Unit {0})
  unfolding apply_where wrap_db_err
  run_delete qb db =
      let (r, db') = table.delete (apply_where qb) model.blank db in
      (wrap_db_err "repository Delete" r, db')

  -- Create: the caller's model gets the columns that the database filled in.
  abbrev pub only_row : T → List T → T
  only_row m [] = m
  only_row m (x ∷ xs) = x

  abbrev pub inserted_row : T → Outcome (List T) → Outcome T
  inserted_row m (ok rows) = ok (only_row m rows)
  inserted_row m (err e) = err e
  inserted_row m panic = panic

  unfoldable pub create : T → Act Db T
  unfolding wrap_db_err
  create m db =
      let (r, db') = table.insert (m ∷ []) db in
      (wrap_db_err "repository Create" (inserted_row m r), db')

  -- Update
  unfoldable pub update : T → Act Db (Unit {0})
  unfolding wrap_db_err
  update m db =
      let (r, db') = table.update (model.id_of m) m db in (wrap_db_err "repository Update" r, db')

  -- Delete
  unfoldable pub delete : T → Act Db (Unit {0})
  unfolding wrap_db_err
  delete m db = let (r, db') = table.delete none m db in (wrap_db_err "repository Delete" r, db')

  -- DeleteByID
  unfoldable pub delete_by_id : ℕ → Act Db (Unit {0})
  unfolding delete
  delete_by_id id db = delete (model.set_id id model.blank) db

  -- findOne
  abbrev pub one_row : Outcome (List T) → Outcome T
  one_row (ok []) = err not_found
  one_row (ok (x ∷ [])) = ok x
  one_row (ok (x ∷ y ∷ xs)) = err multiple
  one_row (err e) = err e
  one_row panic = panic

  unfoldable pub find_one : List Condition → Db → Outcome T
  unfolding run_find new_query_builder apply_filters set_limit
  find_one filters db =
      one_row (run_find (set_limit (pos 2) (apply_filters filters new_query_builder)) db)

  -- Find
  unfoldable pub find : T → Db → Outcome T
  unfolding find_one build_filters
  find m db = find_one (build_filters (model.fields m)) db

  abbrev pub find_by_key : Option ModelMeta → ℕ → Db → Outcome T
  find_by_key none id db = err no_primary_key
  find_by_key (some meta) id db =
      find_one (record { field = meta.pk_column; op = op_eq; value = num id } ∷ []) db

  -- FindByID
  unfoldable pub find_by_id : ℕ → Db → Outcome T
  unfolding find_one parse_model_meta
  find_by_id id db = find_by_key (parse_model_meta 0 (model.fields model.blank)) id db

  -- FindAll
  unfoldable pub find_all : T → Db → Outcome (List T)
  unfolding run_find apply_filters new_query_builder build_filters
  find_all m db = run_find (apply_filters (build_filters (model.fields m)) new_query_builder) db

  abbrev pub with_total : List T → Outcome ℕ → Outcome (List T × ℕ)
  with_total rows (ok total) = ok (rows, total)
  with_total rows (err e) = err e
  with_total rows panic = panic

  abbrev pub page_of : Outcome (List T) → Outcome ℕ → Outcome (List T × ℕ)
  page_of (ok rows) total = with_total rows total
  page_of (err e) total = err e
  page_of panic total = panic

  -- FindPage; `query` is what reflection sees of the request.
  unfoldable pub find_page : List Field → ℤ → ℤ → Db → Outcome (List T × ℕ)
  unfolding run_find run_count apply_filters new_query_builder build_filters set_limit set_offset
  find_page query limit offset db =
      let filtered = apply_filters (build_filters query) new_query_builder in
      page_of (run_find (set_offset offset (set_limit limit filtered)) db) (run_count filtered db)

  -- BatchCreate
  unfoldable pub batch_create : List T → Act Db (Unit {0})
  unfolding wrap_db_err
  batch_create [] db = (ok tt, db)
  batch_create (m ∷ ms) db =
      let (r, db') = table.insert (m ∷ ms) db in
      (
        elim (wrap_db_err "repository BatchCreate" r) [
          | ok _ ↦ ok tt
          | err e ↦ err e
          | panic ↦ panic
        ],
        db',
      )
