-- ===== src/Iam/Model/Columns.antt =====
-- What the database makes of the columns of the link tables, from the laws of the tables and the
-- documented mapping of a model's fields to columns by xorm.
use go_admin.Common.{
  ℕ, ◌≡◌, refl, Bool, List, map, contains, nat_eq, ◌==◌, arith, Bytes, bytes, nat_beq_iff,
}
use go_admin.Repository.Quote.{quote_ident}
use go_admin.Repository.Query.{
  num, Cond, eq, in_list, condition_to_cond, apply_where, where_in, where_eq, new_query_builder,
}
use go_admin.Repository.Meta.{build_filters}
use go_admin.Repository.Db.{Table}
use go_admin.Repository.Crud.Laws.{TableLaws}
use go_admin.Iam.Links.Exact.{LinkLaws}
use go_admin.Iam.Model.{
  UserRole, RolePermission, user_role_model, role_permission_model, fields_of_user_role,
  fields_of_role_permission,
}
use go_admin.Iam.Model.Tables.{user_role_links, role_permission_links}

-- A column of numbers: `sat` reads it as the field of the model.
pub record IsColumn {T : Type 0} (sat : Cond → T → Bool) (column : Bytes) (field : T → ℕ)
    : Type 0 where
  pub sat_eq : (n : ℕ) (a : T) → sat (eq column (num n)) a ≡ (field a == n)
  pub sat_in : (ns : List ℕ) (a : T) → sat (in_list column (map num ns)) a ≡ contains ns (field a)

pub record UserRoleLaws {Db : Type 0} (table : Table Db UserRole) (rows : Db → List UserRole)
    (sat : Cond → UserRole → Bool) : Type 0 where
  pub table_laws : TableLaws table user_role_model rows sat
  pub user_column : IsColumn sat (bytes "`user_id`") (λ r. r.user_id)
  pub role_column : IsColumn sat (bytes "`role_id`") (λ r. r.role_id)
  -- An insert fills in the primary key alone.
  pub erase_id :
      (a b : UserRole)
      → table_laws.erase a ≡ table_laws.erase b
      → (a.user_id ≡ b.user_id) × (a.role_id ≡ b.role_id)

pub record RolePermissionLaws {Db : Type 0} (table : Table Db RolePermission)
    (rows : Db → List RolePermission) (sat : Cond → RolePermission → Bool) : Type 0 where
  pub table_laws : TableLaws table role_permission_model rows sat
  pub role_column : IsColumn sat (bytes "`role_id`") (λ r. r.role_id)
  pub permission_column : IsColumn sat (bytes "`permission_id`") (λ r. r.permission_id)
  pub erase_id :
      (a b : RolePermission)
      → table_laws.erase a ≡ table_laws.erase b
      → (a.role_id ≡ b.role_id) × (a.permission_id ≡ b.permission_id)

module _ {Db : Type 0} where
  pub user_role-LinkLaws :
      (table : Table Db UserRole) (rows : Db → List UserRole) (sat : Cond → UserRole → Bool)
      → UserRoleLaws table rows sat
      → LinkLaws (user_role_links table) rows sat
  unfolding condition_to_cond quote_ident build_filters fields_of_user_role apply_where where_in
      where_eq new_query_builder
  user_role-LinkLaws table rows sat laws = record {
    table_laws = laws.table_laws;
    owner_filter = λ o n. ground (arith, nat_beq_iff o 0);
    has_where = λ o ts h. cc;
    sat_owner = laws.user_column.sat_eq;
    sat_target = laws.role_column.sat_in;
    make_lem = λ o t. (refl, refl);
    erase_lem = laws.erase_id;
  }

  pub role_permission-LinkLaws :
      (table : Table Db RolePermission) (rows : Db → List RolePermission)
      (sat : Cond → RolePermission → Bool)
      → RolePermissionLaws table rows sat
      → LinkLaws (role_permission_links table) rows sat
  unfolding condition_to_cond quote_ident build_filters fields_of_role_permission apply_where
      where_in where_eq new_query_builder
  role_permission-LinkLaws table rows sat laws = record {
    table_laws = laws.table_laws;
    owner_filter = λ o n. ground (arith, nat_beq_iff o 0);
    has_where = λ o ts h. cc;
    sat_owner = laws.role_column.sat_eq;
    sat_target = laws.permission_column.sat_in;
    make_lem = λ o t. (refl, refl);
    erase_lem = laws.erase_id;
  }
