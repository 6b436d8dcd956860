-- ===== src/Users/Model.antt =====
-- internal/modules/user/model/user.go, internal/modules/user/service/user_finder.go and the types of
-- internal/modules/user/dto. The status is a natural number here, a time a number of nanoseconds.
use go_admin.Common.{ℕ, Bool, Option, List, [], ◌∷◌, Bytes, bytes, ℤ}
use go_admin.Outcome.{Outcome}
use go_admin.Repository.Query.{num, text}
use go_admin.Repository.Meta.{Field, value, bean}
use go_admin.Repository.Crud.{Model}

-- model.User
pub record User : Type 0 where
  pub id : ℕ
  pub username : Bytes
  pub password_hash : Bytes
  pub email : Bytes
  pub phone : Bytes
  pub avatar_url : Bytes
  pub status : ℕ
  pub create_time : ℕ
  pub update_time : ℕ
  pub last_login_time : ℕ

-- UserFinder
pub record UserFinder (Db : Type 0) : Type 0 where
  pub find_by_id : ℕ → Db → Outcome User
  pub find_by_username : Bytes → Db → Outcome User
  pub verify_password : User → Bytes → Bool

-- What reflection sees: the fields with their tags.
unfoldable pub fields_of_user : User → List Field
fields_of_user u =
    record {
      name = bytes "ID";
      tag = bytes "pk autoincr bigint unsigned 'id'";
      content = value (num u.id);
    }
    ∷ record {
      name = bytes "Username";
      tag = bytes "varchar(50) notnull unique 'username'";
      content = value (text u.username);
    }
    ∷ record {
      name = bytes "PasswordHash";
      tag = bytes "varchar(255) notnull 'password_hash'";
      content = value (text u.password_hash);
    }
    ∷ record {
      name = bytes "Email";
      tag = bytes "varchar(100) notnull unique 'email'";
      content = value (text u.email);
    }
    ∷ record {
      name = bytes "Phone";
      tag = bytes "varchar(20) 'phone'";
      content = value (text u.phone);
    }
    ∷ record {
      name = bytes "AvatarURL";
      tag = bytes "varchar(255) 'avatar_url'";
      content = value (text u.avatar_url);
    }
    ∷ record { name = bytes "Status"; tag = bytes "int 'status'"; content = value (num u.status) }
    ∷ record { name = bytes "CreateTime"; tag = bytes "created"; content = bean }
    ∷ record { name = bytes "UpdateTime"; tag = bytes "updated"; content = bean }
    ∷ record {
      name = bytes "LastLoginTime";
      tag = bytes "datetime 'last_login_time'";
      content = bean;
    }
    ∷ []

abbrev pub blank_user : User
blank_user = record {
  id = 0;
  username = [];
  password_hash = [];
  email = [];
  phone = [];
  avatar_url = [];
  status = 0;
  create_time = 0;
  update_time = 0;
  last_login_time = 0;
}

abbrev pub user_model : Model User
user_model = record {
  fields = fields_of_user;
  blank = blank_user;
  id_of = λ u. u.id;
  set_id = λ id u. record u { id = id };
}

-- CreateUserRequest
pub record CreateUserRequest : Type 0 where
  pub username : Bytes
  pub password : Bytes
  pub email : Bytes
  pub phone : Bytes
  pub avatar_url : Bytes
  pub role_ids : List ℕ
  pub status : ℕ

-- UpdateUserRequest
pub record UpdateUserRequest : Type 0 where
  pub id : ℕ
  pub username : Bytes
  pub password : Bytes
  pub email : Bytes
  pub phone : Bytes
  pub avatar_url : Bytes
  pub role_ids : Option (List ℕ)
  pub status : ℕ

-- GetUserRequest
pub record GetUserRequest : Type 0 where
  pub id : ℕ
  pub username : Bytes

-- GetUserListRequest, and what reflection sees of it
pub record GetUserListRequest : Type 0 where
  pub offset : ℤ
  pub limit : ℤ
  pub username : Bytes
  pub email : Bytes
  pub phone : Bytes
  pub status : ℕ

unfoldable pub fields_of_list_request : GetUserListRequest → List Field
fields_of_list_request r =
    record { name = bytes "Page"; tag = []; content = bean }
    ∷ record {
      name = bytes "Username";
      tag = bytes "username op=like";
      content = value (text r.username);
    }
    ∷ record { name = bytes "Email"; tag = bytes "email op=like"; content = value (text r.email) }
    ∷ record { name = bytes "Phone"; tag = bytes "phone op=like"; content = value (text r.phone) }
    ∷ record { name = bytes "Status"; tag = bytes "status op=eq"; content = value (num r.status) }
    ∷ []

-- UserResponse
pub record UserResponse : Type 0 where
  pub id : ℕ
  pub username : Bytes
  pub email : Bytes
  pub phone : Bytes
  pub avatar_url : Bytes
  pub status : ℕ
  pub create_time : ℕ
  pub update_time : ℕ
  pub last_login_time : ℕ

-- UserRoutes
pub record UserRoutes : Type 0 where
  pub username : Bytes
  pub role : Bytes
  pub routes : List Bytes
