-- ===== src/Iam/Model.antt =====
-- internal/modules/iam/model/model.go and the request and response types of internal/modules/iam/dto.
-- An int column is a natural number here, and a time is a number of nanoseconds.
pub mod Tables
pub mod Columns
use go_admin.Common.{ℕ, zero, List, [], ◌∷◌, Option, Bytes, bytes, ◌&&◌, Bool, not, nat_eq, ◌==◌}
use go_admin.Repository.Query.{Value, num, text}
use go_admin.Repository.Meta.{Field, value, bean}
use go_admin.Repository.Crud.{Model}
use Prim.Native.Nat.{bit_and, bit_or}

pub record Role : Type 0 where
  pub id : ℕ
  pub name : Bytes
  pub code : Bytes
  pub description : Bytes
  pub status : ℕ
  pub create_time : ℕ
  pub update_time : ℕ

pub record Permission : Type 0 where
  pub id : ℕ
  pub name : Bytes
  pub code : Bytes
  pub description : Bytes
  pub parent_id : ℕ
  pub kind : ℕ
  pub path : Bytes
  pub method : Bytes
  pub status : ℕ
  pub create_time : ℕ
  pub update_time : ℕ

pub record RolePermission : Type 0 where
  pub id : ℕ
  pub role_id : ℕ
  pub permission_id : ℕ

pub record UserRole : Type 0 where
  pub id : ℕ
  pub user_id : ℕ
  pub role_id : ℕ

-- What reflection sees: the fields with their tags.
unfoldable pub fields_of_role_permission : RolePermission → List Field
fields_of_role_permission r =
    record {
      name = bytes "ID";
      tag = bytes "pk autoincr bigint unsigned 'id'";
      content = value (num r.id);
    }
    ∷ record {
      name = bytes "RoleID";
      tag = bytes "bigint unsigned notnull index 'role_id'";
      content = value (num r.role_id);
    }
    ∷ record {
      name = bytes "PermissionID";
      tag = bytes "bigint unsigned notnull index 'permission_id'";
      content = value (num r.permission_id);
    }
    ∷ []

unfoldable pub fields_of_user_role : UserRole → List Field
fields_of_user_role r =
    record {
      name = bytes "ID";
      tag = bytes "pk autoincr bigint unsigned 'id'";
      content = value (num r.id);
    }
    ∷ record {
      name = bytes "UserID";
      tag = bytes "bigint unsigned notnull index 'user_id'";
      content = value (num r.user_id);
    }
    ∷ record {
      name = bytes "RoleID";
      tag = bytes "bigint unsigned notnull index 'role_id'";
      content = value (num r.role_id);
    }
    ∷ []

unfoldable pub fields_of_role : Role → List Field
fields_of_role r =
    record {
      name = bytes "ID";
      tag = bytes "pk autoincr bigint unsigned 'id'";
      content = value (num r.id);
    }
    ∷ record {
      name = bytes "Name";
      tag = bytes "varchar(50) notnull unique 'name'";
      content = value (text r.name);
    }
    ∷ record {
      name = bytes "Code";
      tag = bytes "varchar(50) notnull unique 'code'";
      content = value (text r.code);
    }
    ∷ record {
      name = bytes "Description";
      tag = bytes "varchar(255) 'description'";
      content = value (text r.description);
    }
    ∷ record { name = bytes "Status"; tag = bytes "int 'status'"; content = value (num r.status) }
    ∷ record { name = bytes "CreateTime"; tag = bytes "created"; content = bean }
    ∷ record { name = bytes "UpdateTime"; tag = bytes "updated"; content = bean }
    ∷ []

unfoldable pub fields_of_permission : Permission → List Field
fields_of_permission p =
    record {
      name = bytes "ID";
      tag = bytes "pk autoincr bigint unsigned 'id'";
      content = value (num p.id);
    }
    ∷ record {
      name = bytes "Name";
      tag = bytes "varchar(50) notnull unique 'name'";
      content = value (text p.name);
    }
    ∷ record {
      name = bytes "Code";
      tag = bytes "varchar(50) notnull unique 'code'";
      content = value (text p.code);
    }
    ∷ record {
      name = bytes "Description";
      tag = bytes "varchar(255) 'description'";
      content = value (text p.description);
    }
    ∷ record {
      name = bytes "ParentID";
      tag = bytes "int 'parent_id'";
      content = value (num p.parent_id);
    }
    ∷ record { name = bytes "Type"; tag = bytes "int 'type'"; content = value (num p.kind) }
    ∷ record {
      name = bytes "Path";
      tag = bytes "varchar(255) 'path'";
      content = value (text p.path);
    }
    ∷ record {
      name = bytes "Method";
      tag = bytes "varchar(50) 'method'";
      content = value (text p.method);
    }
    ∷ record { name = bytes "Status"; tag = bytes "int 'status'"; content = value (num p.status) }
    ∷ record { name = bytes "CreateTime"; tag = bytes "created"; content = bean }
    ∷ record { name = bytes "UpdateTime"; tag = bytes "updated"; content = bean }
    ∷ []

abbrev pub blank_role : Role
blank_role = record {
  id = 0;
  name = [];
  code = [];
  description = [];
  status = 0;
  create_time = 0;
  update_time = 0;
}

abbrev pub blank_permission : Permission
blank_permission = record {
  id = 0;
  name = [];
  code = [];
  description = [];
  parent_id = 0;
  kind = 0;
  path = [];
  method = [];
  status = 0;
  create_time = 0;
  update_time = 0;
}

abbrev pub role_model : Model Role
role_model = record {
  fields = fields_of_role;
  blank = blank_role;
  id_of = λ r. r.id;
  set_id = λ id r. record r { id = id };
}

abbrev pub permission_model : Model Permission
permission_model = record {
  fields = fields_of_permission;
  blank = blank_permission;
  id_of = λ p. p.id;
  set_id = λ id p. record p { id = id };
}

abbrev pub user_role_model : Model UserRole
user_role_model = record {
  fields = fields_of_user_role;
  blank = record { id = 0; user_id = 0; role_id = 0 };
  id_of = λ r. r.id;
  set_id = λ id r. record r { id = id };
}

abbrev pub role_permission_model : Model RolePermission
role_permission_model = record {
  fields = fields_of_role_permission;
  blank = record { id = 0; role_id = 0; permission_id = 0 };
  id_of = λ r. r.id;
  set_id = λ id r. record r { id = id };
}

pub record CreateRoleRequest : Type 0 where
  pub name : Bytes
  pub code : Bytes
  pub description : Bytes
  pub status : ℕ
  pub permission_ids : List ℕ

-- `permission_ids` is a pointer: `none` leaves the permissions as they are.
pub record UpdateRoleRequest : Type 0 where
  pub id : ℕ
  pub name : Bytes
  pub code : Bytes
  pub description : Bytes
  pub status : ℕ
  pub permission_ids : Option (List ℕ)

-- RoleResponse. A PermissionResponse has the fields of a Permission.
pub record RoleResponse : Type 0 where
  pub id : ℕ
  pub name : Bytes
  pub code : Bytes
  pub description : Bytes
  pub status : ℕ
  pub create_time : ℕ
  pub update_time : ℕ
  pub permissions : List Permission

-- INCLUDE_ROLE, INCLUDE_PERMISSION, ALL_AUTH_FLAGS and NewResponseFlags(flags).Has(flag)
abbrev pub include_role : ℕ
include_role = 1

abbrev pub include_permission : ℕ
include_permission = 2

abbrev pub all_auth_flags : ℕ
all_auth_flags = bit_or include_role include_permission

unfoldable pub has_flag : ℕ → ℕ → Bool
has_flag flags flag = not (bit_and flags flag == 0)
