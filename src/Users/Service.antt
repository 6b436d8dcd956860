-- ===== src/Users/Service.antt =====
-- internal/modules/user/service/user_service.go. copier and the password hasher are parameters; a
-- hash is made with fresh randomness.
use go_admin.Common.{ℕ, Bool, List, [], ◌∷◌, Bytes, text_eq}
use go_admin.Outcome.{Error, Outcome, ok, err, panic, wrap, Act, ◌>>=◌, ◌>>◌, wrapped, pure, reads}
use go_admin.Repository.Db.{Table}
use go_admin.Repository.Crud.{find, find_by_id, find_page, create, update, delete_by_id}
use go_admin.Crypter.{PasswordHasher}
use go_admin.Users.Model.{
  User, UserFinder, blank_user, user_model, CreateUserRequest, UpdateUserRequest,
  GetUserListRequest, fields_of_list_request, UserResponse,
}

-- copier.Copy at the types in use.
pub record UserCopier : Type 0 where
  pub create_user : CreateUserRequest → Outcome User
  pub update_user : UpdateUserRequest → User → Outcome User
  pub user_response : User → Outcome UserResponse

module _ {Db : Type 0} (table : Table Db User) (hasher : PasswordHasher) where
  -- FindByID, FindByUsername, VerifyPassword
  unfoldable pub find_user : ℕ → Db → Outcome User
  unfolding find_by_id
  find_user id db = find_by_id table user_model id db

  unfoldable pub find_by_username : Bytes → Db → Outcome User
  unfolding find
  find_by_username name db = find table user_model (record blank_user { username = name }) db

  unfoldable pub verify_password : User → Bytes → Bool
  verify_password u plain = hasher.verify plain u.password_hash

  -- The Service as a UserFinder
  unfoldable pub user_finder : UserFinder Db
  unfolding find_user find_by_username verify_password
  user_finder = record {
    find_by_id = find_user;
    find_by_username = find_by_username;
    verify_password = verify_password;
  }

  -- UpdateLastLoginTime
  unfoldable pub update_last_login_time : ℕ → ℕ → Act Db (Unit {0})
  unfolding update wrapped
  update_last_login_time now user_id =
      wrapped "failed to update last login time"
        (update table user_model (record blank_user { id = user_id; last_login_time = now }))

  -- List
  unfoldable pub list_users : GetUserListRequest → Db → Outcome (List User × ℕ)
  unfolding find_page fields_of_list_request
  list_users req db =
      find_page table user_model (fields_of_list_request req) req.limit req.offset db

  -- DeleteUsers: every id is tried, and the errors come together; none is success.
  abbrev pub with_error : Outcome (Unit {0}) → Outcome (List Error) → Outcome (List Error)
  with_error (ok _) rest = rest
  with_error (err e) (ok es) = ok (wrap "failed to delete user" e ∷ es)
  with_error (err e) (err e') = err e'
  with_error (err e) panic = panic
  with_error panic rest = panic

  unfoldable pub delete_users : List ℕ → Db → Outcome (List Error) × Db
  unfolding delete_by_id
  delete_users [] db = (ok [], db)
  delete_users (id ∷ ids) db =
      let (r, db1) = delete_by_id table user_model id db in
      let (rest, db2) = delete_users ids db1 in
      elim r [ panic ↦ (panic, db1) | other ↦ (with_error other rest, db2) ]

  module _ (copier : UserCopier) where
    -- Create
    unfoldable pub create_user : ℕ → CreateUserRequest → Act Db User
    unfolding create ◌>>=◌ wrapped
    create_user random req = do
      u ← wrapped "failed to copy request to user" (reads (λ _. copier.create_user req))
      hashed ← wrapped "failed to hash password" (reads (λ _. hasher.hash random req.password))
      wrapped "failed to create user"
          (create table user_model (record u { password_hash = hashed }))

    -- The password of Update: an empty one leaves the hash as it is.
    unfoldable pub with_password : ℕ → Bytes → User → Act Db User
    unfolding ◌>>=◌ wrapped
    with_password random [] u = pure u
    with_password random (c ∷ password) u = do
      hashed ← wrapped "failed to hash password" (reads (λ _. hasher.hash random (c ∷ password)))
      pure (record u { password_hash = hashed })

    -- Update
    unfoldable pub update_user : ℕ → UpdateUserRequest → Act Db User
    unfolding find_user update with_password ◌>>=◌ wrapped
    update_user random req = do
      found ← wrapped "failed to retrieve user" (reads (find_user req.id))
      copied ← wrapped "failed to copy request to user" (reads (λ _. copier.update_user req found))
      u ← with_password random req.password copied
      wrapped "failed to update user" (update table user_model u)
      pure u
