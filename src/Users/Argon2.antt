-- ===== src/Users/Argon2.antt =====
-- The users of internal/modules/user with the hasher of pkg/crypter that internal/bootstrap gives them.
use go_admin.Common.{ℕ, ◌≡◌, Bool, true, List, Elem}
use go_admin.Outcome.{ok}
use go_admin.Repository.Query.{Cond}
use go_admin.Repository.Db.{Table}
use go_admin.Repository.Crud.Laws.{TableLaws}
use go_admin.Crypter.{Library, Argon2Hasher, password_hasher}
use go_admin.Crypter.Hashes.{LibraryLaws, Fits, password_hasher-IsFaithful}
use go_admin.Users.Model.{User, user_model, CreateUserRequest, UpdateUserRequest}
use go_admin.Users.Service.{UserCopier, find_user, verify_password, create_user, update_user}
use go_admin.Users.Passwords.{
  HasPassword, UpdateLaws, IsStored, create_user-IsFaithful, update_user-IsFaithful,
}

module _ (lib : Library) (lib_laws : LibraryLaws lib) (h : Argon2Hasher) (fits : Fits h)
    {Db : Type 0} (table : Table Db User) (rows : Db → List User) where
  -- With an Argon2Hasher whose numbers fit their fields, over libraries that meet the stated laws,
  -- and a table that meets its laws: a user that Create returns without an error is a row of the
  -- table, and VerifyPassword takes the password of the request for that user.
  pub create_user-verify_password :
      (sat : Cond → User → Bool) (laws : TableLaws table user_model rows sat)
      (erase_hash : (a b : User) → laws.erase a ≡ laws.erase b → a.password_hash ≡ b.password_hash)
      (copier : UserCopier) (random : ℕ) (req : CreateUserRequest) (db db' : Db) (u : User)
      → create_user table (password_hasher lib h) copier random req db ≡ (ok u, db')
      → Elem u (rows db') × (verify_password table (password_hasher lib h) u req.password ≡ true)
  create_user-verify_password sat laws erase_hash copier random req db db' u e =
      create_user-IsFaithful table rows sat laws erase_hash (password_hasher lib h) copier random
        req db db' u (password_hasher-IsFaithful lib lib_laws h fits) e

  -- With an Argon2Hasher whose numbers fit their fields, over libraries that meet the stated laws,
  -- if copier leaves the hash alone and an update of a row does what is stated: Update returns
  -- without an error only if the user was found. With a password in the request, the hash of the
  -- user that it returns and those of all rows with its id verify that password; with an empty
  -- one, the user has the hash of the one found, and so have these rows, but for a hash that was
  -- empty, which leaves theirs as they were. If there was a row with the id, there is one, and the
  -- rows with other ids are as before.
  pub update_user-IsStored :
      (update_laws : UpdateLaws table rows) (copier : UserCopier)
      (copy_hash : (req : UpdateUserRequest) (a b : User)
        → copier.update_user req a ≡ ok b
        → b.password_hash ≡ a.password_hash)
      (random : ℕ) (req : UpdateUserRequest) (db db' : Db) (u : User)
      → update_user table (password_hasher lib h) copier random req db ≡ (ok u, db')
      → (old : User) × (find_user table (password_hasher lib h) req.id db ≡ ok old)
        × HasPassword (password_hasher lib h) req.password old u
        × IsStored rows (password_hasher lib h) req.password old u.id db db'
  update_user-IsStored update_laws copier copy_hash random req db db' u e =
      update_user-IsFaithful table rows update_laws (password_hasher lib h) copier
        (password_hasher-IsFaithful lib lib_laws h fits) copy_hash random req db db' u e
