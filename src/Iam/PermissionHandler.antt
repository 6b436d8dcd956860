-- ===== src/Iam/PermissionHandler.antt =====
-- internal/modules/iam/handler/permission_handler.go: the permission service in front of the checker,
-- whose cache a change empties.
pub mod Fresh
use go_admin.Common.{ℕ, Option, none, some, List, [], ◌∷◌, ℤ}
use go_admin.Outcome.{Outcome, ok, err, panic, Act}
use go_admin.Api.{Response, success, no_content, database_error, of_error}
use go_admin.Repository.Meta.{Field}
use go_admin.Repository.Db.{Table}
use go_admin.Iam.Model.{Permission}
use go_admin.Iam.Checker.{Checker, invalidate_all}
use go_admin.Iam.PermissionService.{
  CreatePermissionRequest, UpdatePermissionRequest, PermissionCopier, create_permission,
  create_permissions, update_permission, delete_permission_batch, get_permission,
  get_permission_list,
}

-- What a handler makes of the outcome of the service, for a change.
unfoldable pub changed :
    {Db A B : Type 0}
    → (A → Response B)
    → Checker Db
    → Outcome A × Db
    → Outcome (Response B) × Checker Db
unfolding invalidate_all
changed answer c (ok a, db) = (ok (answer a), invalidate_all (record c { db = db }))
changed answer c (err e, db) = (ok (database_error (of_error e)), record c { db = db })
changed answer c (panic, db) = (panic, record c { db = db })

-- The same for a query.
abbrev pub answered :
    {Db A B : Type 0}
    → (A → Response B)
    → Checker Db
    → Outcome A × Db
    → Outcome (Response B) × Checker Db
answered answer c (ok a, db) = (ok (answer a), record c { db = db })
answered answer c (err e, db) = (ok (database_error (of_error e)), record c { db = db })
answered answer c (panic, db) = (panic, record c { db = db })

module _ {Db : Type 0} (table : Table Db Permission) (copier : PermissionCopier) where
  -- CreatePermission, CreatePermissionBatch, UpdatePermission, DeletePermission
  unfoldable pub handle_create : CreatePermissionRequest → Act (Checker Db) (Response Permission)
  unfolding create_permission changed
  handle_create req c = changed (λ p. success (some p)) c (create_permission table copier req c.db)

  unfoldable pub handle_create_batch :
      List CreatePermissionRequest → Act (Checker Db) (Response Permission)
  unfolding create_permissions changed
  handle_create_batch reqs c =
      changed (λ _. success none) c (create_permissions table copier reqs c.db)

  unfoldable pub handle_update : UpdatePermissionRequest → Act (Checker Db) (Response Permission)
  unfolding update_permission changed
  handle_update req c = changed (λ p. success (some p)) c (update_permission table copier req c.db)

  unfoldable pub handle_delete : List ℕ → Act (Checker Db) (Response Permission)
  unfolding delete_permission_batch changed
  handle_delete ids c = changed (λ _. no_content) c (delete_permission_batch table copier ids c.db)

  -- GetPermission, GetPermissionList
  unfoldable pub handle_get : ℕ → Act (Checker Db) (Response Permission)
  unfolding get_permission
  handle_get id c = answered (λ p. success (some p)) c (get_permission table copier id c.db)

  unfoldable pub handle_list :
      List Field → ℤ → ℤ → Act (Checker Db) (Response (List Permission × ℕ))
  unfolding get_permission_list
  handle_list query limit offset c =
      answered (λ page. success (some page)) c
        (get_permission_list table copier query limit offset c.db)
