-- ===== src/Iam/Model/Tables.antt =====
-- The four tables of internal/modules/iam/service/repositories.go, and the two of them that link.
use go_admin.Common.{ℕ, List, bytes}
use go_admin.Outcome.{Outcome}
use go_admin.Repository.Db.{Session, Table}
use go_admin.Iam.Links.{LinkTable, Messages}
use go_admin.Iam.Model.{
  Role, Permission, RolePermission, UserRole, user_role_model, role_permission_model,
}

-- repositories. `descend` runs the recursive query of getChildPermissionsWithCTE on the given ids.
pub record Repositories (Db : Type 0) : Type 0 where
  pub session : Session Db
  pub role : Table Db Role
  pub permission : Table Db Permission
  pub user_role : Table Db UserRole
  pub role_permission : Table Db RolePermission
  pub descend : List ℕ → Db → Outcome (List Permission)

abbrev pub user_role_links : {Db : Type 0} → Table Db UserRole → LinkTable Db UserRole
user_role_links table = record {
  table = table;
  model = user_role_model;
  owner = λ r. r.user_id;
  target = λ r. r.role_id;
  make = λ user_id role_id. record { id = 0; user_id = user_id; role_id = role_id };
  owner_column = bytes "user_id";
  target_column = bytes "role_id";
}

abbrev pub role_permission_links :
    {Db : Type 0} → Table Db RolePermission → LinkTable Db RolePermission
role_permission_links table = record {
  table = table;
  model = role_permission_model;
  owner = λ r. r.role_id;
  target = λ r. r.permission_id;
  make =
      λ role_id permission_id. record { id = 0; role_id = role_id; permission_id = permission_id };
  owner_column = bytes "role_id";
  target_column = bytes "permission_id";
}

abbrev pub user_role_messages : Messages
user_role_messages = record {
  retrieve = "failed to retrieve user roles";
  delete = "failed to delete user roles";
  create = "failed to create user roles";
}

abbrev pub role_permission_messages : Messages
role_permission_messages = record {
  retrieve = "failed to retrieve role permissions";
  delete = "failed to delete role permissions";
  create = "failed to create role permissions";
}
