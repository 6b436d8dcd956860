-- ===== src/Iam/PermissionService.antt =====
-- internal/modules/iam/service/permission_service.go. A PermissionResponse has the fields of a
-- Permission.
use go_admin.Common.{ℕ, Option, List, [], ◌∷◌, Bytes, bytes, ℤ}
use go_admin.Outcome.{Outcome, Act, ◌>>=◌, ◌>>◌, wrapped, pure, reads}
use go_admin.Repository.Query.{nums, new_query_builder, where_in}
use go_admin.Repository.Meta.{Field}
use go_admin.Repository.Db.{Table}
use go_admin.Repository.Crud.{find_by_id, find_page, create, update, batch_create, run_delete}
use go_admin.Iam.Model.{Permission, permission_model}

-- CreatePermissionRequest
pub record CreatePermissionRequest : Type 0 where
  pub name : Bytes
  pub code : Bytes
  pub description : Bytes
  pub parent_id : ℕ
  pub kind : ℕ
  pub path : Bytes
  pub method : Bytes
  pub status : ℕ

-- UpdatePermissionRequest
pub record UpdatePermissionRequest : Type 0 where
  pub id : ℕ
  pub name : Bytes
  pub code : Bytes
  pub description : Bytes
  pub parent_id : Option ℕ
  pub kind : ℕ
  pub path : Bytes
  pub method : Bytes
  pub status : ℕ

-- copier.Copy at the types in use.
pub record PermissionCopier : Type 0 where
  pub create_permission : CreatePermissionRequest → Outcome Permission
  pub create_permissions : List CreatePermissionRequest → Outcome (List Permission)
  pub update_permission : UpdatePermissionRequest → Permission → Outcome Permission
  pub response : Permission → Outcome Permission
  pub responses : List Permission → Outcome (List Permission)

module _ {Db : Type 0} (table : Table Db Permission) (copier : PermissionCopier) where
  abbrev respond : Permission → Act Db Permission
  unfolding wrapped
  respond permission =
      wrapped "failed to copy permission to result" (reads (λ _. copier.response permission))

  -- CreatePermission
  unfoldable pub create_permission : CreatePermissionRequest → Act Db Permission
  unfolding create ◌>>=◌ wrapped respond
  create_permission req = do
    permission ←
        wrapped "failed to copy request to permission" (reads (λ _. copier.create_permission req))
    stored ← wrapped "failed to create permission" (create table permission_model permission)
    respond stored

  -- CreatePermissions
  unfoldable pub create_permissions : List CreatePermissionRequest → Act Db (Unit {0})
  unfolding batch_create ◌>>=◌ wrapped
  create_permissions reqs = do
    permissions ←
        wrapped "failed to copy requests to permissions"
          (reads (λ _. copier.create_permissions reqs))
    wrapped "failed to create permissions" (batch_create table permission_model permissions)

  -- UpdatePermission
  unfoldable pub update_permission : UpdatePermissionRequest → Act Db Permission
  unfolding find_by_id update ◌>>=◌ wrapped respond
  update_permission req = do
    found ←
        wrapped "failed to retrieve permission" (reads (find_by_id table permission_model req.id))
    permission ←
        wrapped "failed to copy request to permission"
          (reads (λ _. copier.update_permission req found))
    wrapped "failed to update permission" (update table permission_model permission)
    respond permission

  -- DeletePermissionBatch
  unfoldable pub delete_permission_batch : List ℕ → Act Db (Unit {0})
  unfolding run_delete where_in new_query_builder wrapped
  delete_permission_batch [] = pure tt
  delete_permission_batch (id ∷ ids) = wrapped "failed to delete permissions" (
      run_delete table permission_model (where_in (bytes "id") (nums (id ∷ ids)) new_query_builder))

  -- GetPermission
  unfoldable pub get_permission : ℕ → Act Db Permission
  unfolding find_by_id ◌>>=◌ wrapped respond
  get_permission id = do
    permission ←
        wrapped "failed to retrieve permission" (reads (find_by_id table permission_model id))
    respond permission

  -- GetPermissionList; `query` is what reflection sees of the request.
  unfoldable pub get_permission_list : List Field → ℤ → ℤ → Act Db (List Permission × ℕ)
  unfolding find_page ◌>>=◌ wrapped
  get_permission_list query limit offset = do
    page ←
        wrapped "failed to retrieve permissions"
          (reads (find_page table permission_model query limit offset))
    result ← wrapped "failed to copy permissions to result" (reads (λ _. copier.responses page.0))
    pure (result, page.1)
