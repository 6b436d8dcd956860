-- ===== src/Users/Handler.antt =====
-- internal/modules/user/handler/user_handler.go. The assignment of roles and the paths of a user's
-- permissions are the interfaces that the iam module fills.
use go_admin.Common.{
  ℕ, Option, none, some, List, [], ◌∷◌, Bytes, ltb, not, ◌&&◌, if◌then◌else◌, ◌==◌, text_eq,
}
use go_admin.Outcome.{Error, Outcome, ok, err, panic, Act}
use go_admin.Api.{
  Response, literal, of_error, of_errors, success, no_content, param_error, unauthorized,
  internal_error, database_error,
}
use go_admin.Repository.Db.{Table}
use go_admin.Auth.Jwt.{Claims, parse_uint}
use go_admin.Users.Model.{
  User, GetUserRequest, CreateUserRequest, UpdateUserRequest, GetUserListRequest, UserResponse,
  UserRoutes,
}
use go_admin.Crypter.{PasswordHasher}
use go_admin.Users.Service.{
  UserCopier, find_user, find_by_username, list_users, delete_users, create_user, update_user,
}

-- toUserResponse behind the last step of a handler
abbrev pub as_response : Outcome UserResponse → Outcome (Response UserResponse)
as_response (ok r) = ok (success (some r))
as_response (err e) = ok (internal_error (of_error e))
as_response panic = panic

-- A step whose error is answered as one of the database.
abbrev pub or_database_error :
    {Db A B : Type 0} → Outcome A × Db → (A → Act Db (Response B)) → Outcome (Response B) × Db
or_database_error (ok a, db) f = f a db
or_database_error (err e, db) f = (ok (database_error (of_error e)), db)
or_database_error (panic, db) f = (panic, db)

-- GetUserRoutes and GetUserCurrent read the claims that the middleware put into the request.
abbrev pub routes_of : Claims → Outcome (List Bytes) → Outcome (Response UserRoutes)
routes_of claims (ok paths) =
    ok (success (some (record { username = claims.nice; role = claims.role_key; routes = paths })))
routes_of claims (err e) = ok (internal_error (of_error e))
routes_of claims panic = panic

module _ {Db : Type 0} (permission_paths : ℕ → Act Db (List Bytes)) where
  abbrev pub routes_for : Claims → Option ℕ → Act Db (Response UserRoutes)
  routes_for claims none db = (ok (unauthorized (literal "Invalid token")), db)
  routes_for claims (some user_id) db =
      let (r, db') = permission_paths user_id db in (routes_of claims r, db')

  -- GetUserRoutes
  unfoldable pub get_user_routes : Option Claims → Act Db (Response UserRoutes)
  unfolding parse_uint
  get_user_routes none db = (ok (unauthorized (literal "Invalid token")), db)
  get_user_routes (some claims) db = routes_for claims (parse_uint claims.identity) db

module _ {Db : Type 0} (table : Table Db User) (hasher : PasswordHasher) (copier : UserCopier)
    (assign_roles : ℕ → List ℕ → Act Db (Unit {0})) where
  abbrev respond : User → Act Db (Response UserResponse)
  respond u db = (as_response (copier.user_response u), db)

  -- GetUser: by the id, or else by the name.
  abbrev pub found : GetUserRequest → Db → Outcome User
  unfolding find_user find_by_username
  found req db =
      if ltb 0 req.id
      then find_user table hasher req.id db
      else find_by_username table hasher req.username db

  unfoldable pub get_user : GetUserRequest → Act Db (Response UserResponse)
  unfolding found
  get_user req db =
      if not (ltb 0 req.id) && req.username == []
      then (ok (param_error (literal "id or username is required")), db)
      else or_database_error (found req db, db) respond

  -- CreateUser
  unfoldable pub handle_create : ℕ → CreateUserRequest → Act Db (Response UserResponse)
  unfolding create_user
  handle_create random req db =
      or_database_error (create_user table hasher copier random req db)
        (λ u db'. or_database_error (assign_roles u.id req.role_ids db') (λ _. respond u))

  -- The roles of UpdateUser: a request without them leaves them as they are.
  abbrev pub assign_given : User → Option (List ℕ) → Act Db (Unit {0})
  assign_given u none db = (ok tt, db)
  assign_given u (some ids) db = assign_roles u.id ids db

  -- UpdateUser
  unfoldable pub handle_update : ℕ → UpdateUserRequest → Act Db (Response UserResponse)
  unfolding update_user
  handle_update random req db =
      or_database_error (update_user table hasher copier random req db)
        (λ u db'. or_database_error (assign_given u req.role_ids db') (λ _. respond u))

  -- GetUserList
  abbrev pub all_responses : List User → Outcome (List UserResponse)
  all_responses [] = ok []
  all_responses (u ∷ us) =
      let rest = all_responses us in
      elim (copier.user_response u) [
        | ok r ↦ elim rest [ ok rs ↦ ok (r ∷ rs) | err e ↦ err e | panic ↦ panic ]
        | err e ↦ err e
        | panic ↦ panic
      ]

  abbrev pub page_response :
      ℕ → Outcome (List UserResponse) → Outcome (Response (List UserResponse × ℕ))
  page_response total (ok rs) = ok (success (some (rs, total)))
  page_response total (err e) = ok (internal_error (of_error e))
  page_response total panic = panic

  unfoldable pub get_user_list : GetUserListRequest → Act Db (Response (List UserResponse × ℕ))
  unfolding list_users
  get_user_list req db =
      or_database_error (list_users table hasher req db, db)
        (λ page db'. (page_response page.1 (all_responses page.0), db'))

  -- DeleteUser; the errors of the ids are one error.
  abbrev pub deleted : Outcome (List Error) → Outcome (Response UserResponse)
  deleted (ok []) = ok no_content
  deleted (ok (e ∷ es)) = ok (database_error (of_errors (e ∷ es)))
  deleted (err e) = ok (database_error (of_error e))
  deleted panic = panic

  unfoldable pub delete_user : List ℕ → Act Db (Response UserResponse)
  unfolding delete_users
  delete_user ids db = let (r, db') = delete_users table hasher ids db in (deleted r, db')
