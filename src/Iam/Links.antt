-- ===== src/Iam/Links.antt =====
-- A table that links an owner to targets, and its incremental replacement: assignUserRoles of
-- internal/modules/iam/service/user_role_service.go and AssignRolePermissions of
-- internal/modules/iam/service/role_service.go are this method on their tables.
pub mod Exact
pub mod Assign
use go_admin.Common.{
  ℕ, zero, String, Bool, true, false, List, [], ◌∷◌, map, not, filter, contains, nat_eq, Bytes,
}
use go_admin.Outcome.{Error, wrap, Outcome, ok, err, panic, Act, ◌>>=◌, ◌>>◌, wrapped, pure, fail}
use go_admin.Repository.Query.{
  Value, num, nums, QueryBuilder, new_query_builder, where_eq, where_in,
}
use go_admin.Repository.Db.{Session, Table, transaction}
use go_admin.Repository.Crud.{Model, run_delete, find_all, batch_create}

pub record LinkTable (Db L : Type 0) : Type 0 where
  pub table : Table Db L
  pub model : Model L
  pub owner : L → ℕ
  pub target : L → ℕ
  pub make : (owner_id target_id : ℕ) → L
  pub owner_column : Bytes
  pub target_column : Bytes

-- The messages of the method's errors.
pub record Messages : Type 0 where
  pub retrieve : String
  pub delete : String
  pub create : String

-- The statement that deletes some targets of an owner.
abbrev pub delete_query : {Db L : Type 0} → LinkTable Db L → ℕ → List ℕ → QueryBuilder
delete_query links owner_id ids =
    where_in links.target_column (nums ids)
      (where_eq links.owner_column (num owner_id) new_query_builder)

abbrev pub to_remove : List ℕ → List ℕ → List ℕ
to_remove wanted existing = filter (λ id. not (contains wanted id)) existing

abbrev pub to_add : List ℕ → List ℕ → List ℕ
to_add wanted existing = filter (λ id. not (contains existing id)) wanted

module _ {Db L : Type 0} (session : Session Db) (links : LinkTable Db L) (messages : Messages) where
  -- if len(toRemoveIDs) > 0 { … }
  unfoldable pub remove_links : ℕ → List ℕ → Act Db (Unit {0})
  unfolding run_delete where_in where_eq new_query_builder wrapped
  remove_links owner_id [] = pure tt
  remove_links owner_id (id ∷ ids) =
      wrapped messages.delete
        (run_delete links.table links.model (delete_query links owner_id (id ∷ ids)))

  -- if len(toAddIDs) > 0 { … }
  unfoldable pub add_links : ℕ → List ℕ → Act Db (Unit {0})
  unfolding batch_create wrapped
  add_links owner_id [] = pure tt
  add_links owner_id (id ∷ ids) =
      wrapped messages.create
        (batch_create links.table links.model (map (links.make owner_id) (id ∷ ids)))

  -- The callback of the transaction.
  unfoldable pub change_links : ℕ → List ℕ → List ℕ → Act Db (Unit {0})
  unfolding remove_links add_links ◌>>=◌ filter contains
  change_links owner_id wanted existing = do
    remove_links owner_id (to_remove wanted existing)
    add_links owner_id (to_add wanted existing)

  abbrev pub with_current : Bool → ℕ → List ℕ → Outcome (List L) → Act Db (Unit {0})
  with_current in_tx owner_id wanted (ok current) db =
      transaction session in_tx (λ _. change_links owner_id wanted (map links.target current)) db
  with_current in_tx owner_id wanted (err e) db = fail (wrap messages.retrieve e) db
  with_current in_tx owner_id wanted panic db = (panic, db)

  unfoldable pub assign_links : Bool → ℕ → List ℕ → Act Db (Unit {0})
  unfolding find_all transaction change_links
  assign_links in_tx owner_id wanted db =
      with_current in_tx owner_id wanted
        (find_all links.table links.model (links.make owner_id 0) db) db
