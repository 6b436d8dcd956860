-- ===== src/Iam/RoleHandler.antt =====
-- internal/modules/iam/handler/role_handler.go and user_role_handler.go: the role services in front of
-- the checker. A change of roles empties its cache, an assignment to a user drops that user's entry.
use go_admin.Common.{ℕ, false, some, List, [], ◌∷◌, ℤ}
use go_admin.Outcome.{Error, Outcome, ok, err, panic, Act}
use go_admin.Api.{
  Response, success, no_content, database_error, internal_error, of_error, of_errors,
}
use go_admin.Repository.Meta.{Field}
use go_admin.Iam.Model.{
  Permission, RoleResponse, CreateRoleRequest, UpdateRoleRequest, all_auth_flags,
}
use go_admin.Iam.Model.Tables.{Repositories}
use go_admin.Users.Model.{UserFinder}
use go_admin.Iam.RoleService.{
  Copier, create_role, update_role, delete_role_batch, get_role, get_role_list,
  get_role_permissions,
}
use go_admin.Iam.UserRoleService.{UserRolesResponse, assign_roles, get_user_roles}
use go_admin.Iam.Checker.{Checker, invalidate_all, invalidate_user, get_user_all_permissions}
use go_admin.Iam.PermissionHandler.{changed, answered}

module _ {Db : Type 0} (repos : Repositories Db) (copier : Copier) where
  -- CreateRole, UpdateRole
  unfoldable pub handle_create : CreateRoleRequest → Act (Checker Db) (Response RoleResponse)
  unfolding create_role changed
  handle_create req c = changed (λ r. success (some r)) c (create_role repos copier false req c.db)

  unfoldable pub handle_update : UpdateRoleRequest → Act (Checker Db) (Response RoleResponse)
  unfolding update_role changed
  handle_update req c = changed (λ r. success (some r)) c (update_role repos copier false req c.db)

  -- The loop of CreateRoleBatch: the roles made before an error stay.
  abbrev pub and_role :
      Outcome RoleResponse
      → Outcome (List RoleResponse) × Db
      → Db
      → Outcome (List RoleResponse) × Db
  and_role (ok r) (ok rs, db') db = (ok (r ∷ rs), db')
  and_role (ok r) (err e, db') db = (err e, db')
  and_role (ok r) (panic, db') db = (panic, db')
  and_role (err e) rest db = (err e, db)
  and_role panic rest db = (panic, db)

  unfoldable pub create_roles : List CreateRoleRequest → Act Db (List RoleResponse)
  unfolding create_role
  create_roles [] db = (ok [], db)
  create_roles (req ∷ reqs) db =
      let (r, db1) = create_role repos copier false req db in
      let rest = create_roles reqs db1 in and_role r rest db1

  -- CreateRoleBatch
  unfoldable pub handle_create_batch :
      List CreateRoleRequest → Act (Checker Db) (Response (List RoleResponse))
  unfolding create_roles changed
  handle_create_batch reqs c = changed (λ rs. success (some rs)) c (create_roles reqs c.db)

  -- DeleteRole; the errors of the ids are one error, and the roles without one are gone.
  abbrev pub deleted :
      Checker Db → Outcome (List Error) × Db → Outcome (Response RoleResponse) × Checker Db
  unfolding invalidate_all
  deleted c (ok [], db) = (ok no_content, invalidate_all (record c { db = db }))
  deleted c (ok (e ∷ es), db) = (ok (database_error (of_errors (e ∷ es))), record c { db = db })
  deleted c (err e, db) = (ok (database_error (of_error e)), record c { db = db })
  deleted c (panic, db) = (panic, record c { db = db })

  unfoldable pub handle_delete : List ℕ → Act (Checker Db) (Response RoleResponse)
  unfolding delete_role_batch deleted
  handle_delete ids c = deleted c (delete_role_batch repos false ids c.db)

  -- GetRole, GetRoleList, GetRolePermissions
  unfoldable pub handle_get : ℕ → Act (Checker Db) (Response RoleResponse)
  unfolding get_role
  handle_get id c = answered (λ r. success (some r)) c (get_role repos copier id c.db)

  unfoldable pub handle_list :
      List Field → ℤ → ℤ → ℕ → Act (Checker Db) (Response (List RoleResponse × ℕ))
  unfolding get_role_list
  handle_list query limit offset flags c =
      answered (λ page. success (some page)) c
        (get_role_list repos copier query limit offset flags c.db)

  unfoldable pub handle_permissions : ℕ → Act (Checker Db) (Response (List Permission))
  unfolding get_role_permissions
  handle_permissions role_id c =
      answered (λ ps. success (some ps)) c (get_role_permissions repos copier role_id c.db)

  module _ (finder : UserFinder Db) where
    -- UserAssignRoles, behind the assignment
    abbrev pub assigned :
        ℕ → Checker Db → Outcome (Unit {0}) × Db → Outcome (Response UserRolesResponse) × Checker Db
    unfolding invalidate_user get_user_roles
    assigned user_id c (ok _, db) =
        let c' = invalidate_user user_id (record c { db = db }) in
        answered (λ u. success (some u)) c'
          (get_user_roles repos finder copier user_id all_auth_flags c'.db)
    assigned user_id c (err e, db) = (ok (database_error (of_error e)), record c { db = db })
    assigned user_id c (panic, db) = (panic, record c { db = db })

    -- UserAssignRoles
    unfoldable pub user_assign_roles : ℕ → List ℕ → Act (Checker Db) (Response UserRolesResponse)
    unfolding assign_roles assigned
    user_assign_roles user_id role_ids c =
        assigned user_id c (assign_roles repos finder false user_id role_ids c.db)

    -- GetUserRoles
    unfoldable pub handle_user_roles : ℕ → ℕ → Act (Checker Db) (Response UserRolesResponse)
    unfolding get_user_roles
    handle_user_roles user_id flags c =
        answered (λ u. success (some u)) c (get_user_roles repos finder copier user_id flags c.db)

    -- GetUserPermissions
    abbrev pub copied :
        Checker Db
        → Outcome (List Permission) × Db
        → Outcome (Response (List Permission)) × Checker Db
    copied c (ok ps, db) = (
      elim (copier.permission_responses ps) [
        | ok rs ↦ ok (success (some rs))
        | err e ↦ ok (internal_error (of_error e))
        | panic ↦ panic
      ],
      record c { db = db },
    )
    copied c (err e, db) = (ok (database_error (of_error e)), record c { db = db })
    copied c (panic, db) = (panic, record c { db = db })

    unfoldable pub get_user_permissions : ℕ → Act (Checker Db) (Response (List Permission))
    unfolding get_user_all_permissions
    get_user_permissions user_id c = copied c (get_user_all_permissions repos finder user_id c.db)
