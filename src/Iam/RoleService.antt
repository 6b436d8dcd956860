-- ===== src/Iam/RoleService.antt =====
-- internal/modules/iam/service/role_service.go. Log lines are left out; `tx` says whether the
-- context carries a transaction. jinzhu/copier is a parameter.
use go_admin.Common.{ℕ, String, Bool, true, false, Option, none, some, List, [], ◌∷◌, map, ℤ, bytes}
use go_admin.Outcome.{
  Error, Outcome, ok, err, panic, or_wrap, Act, ◌>>=◌, ◌>>◌, wrapped, pure, reads,
}
use go_admin.Repository.Query.{num, nums, new_query_builder, where_eq, where_in}
use go_admin.Repository.Meta.{Field}
use go_admin.Repository.Db.{transaction, wrap_db_err}
use go_admin.Repository.Crud.{
  run_find, run_delete, create, update, delete_by_id, find_by_id, find_page,
}
use go_admin.Iam.Links.{assign_links}
use go_admin.Iam.Model.{
  Role, Permission, RolePermission, role_model, permission_model, role_permission_model,
  CreateRoleRequest, UpdateRoleRequest, RoleResponse, has_flag, include_permission,
}
use go_admin.Iam.Model.Tables.{Repositories, role_permission_links, role_permission_messages}

-- copier.Copy at the types of this service.
pub record Copier : Type 0 where
  pub create_role : CreateRoleRequest → Outcome Role
  pub update_role : UpdateRoleRequest → Role → Outcome Role
  pub role_response : Role → Outcome RoleResponse
  pub role_responses : List Role → Outcome (List RoleResponse)
  pub permission_responses : List Permission → Outcome (List Permission)

module _ {Db : Type 0} (repos : Repositories Db) where
  -- AssignRolePermissions
  unfoldable pub assign_role_permissions : Bool → ℕ → List ℕ → Act Db (Unit {0})
  unfolding assign_links
  assign_role_permissions tx role_id permission_ids =
      assign_links repos.session (role_permission_links repos.role_permission)
        role_permission_messages tx role_id permission_ids

  abbrev permissions_of : List RolePermission → Db → Outcome (List Permission)
  permissions_of [] db = ok []
  permissions_of (rp ∷ rps) db = or_wrap "query Permission failed" (
      run_find repos.permission permission_model
        (where_in (bytes "id") (nums (map (λ r. r.permission_id) (rp ∷ rps))) new_query_builder) db)

  -- RetrievePermissionByRoleID
  unfoldable pub retrieve_permission_by_role_id : ℕ → Act Db (List Permission)
  unfolding run_find where_eq where_in new_query_builder ◌>>=◌
  retrieve_permission_by_role_id role_id = do
    rps ← reads λ db. or_wrap "query RolePermission failed" (
        run_find repos.role_permission role_permission_model
          (where_eq (bytes "role_id") (num role_id) new_query_builder) db)
    reads (permissions_of rps)

  -- getChildPermissionsWithCTE
  unfoldable pub get_child_permissions_with_cte : List ℕ → Act Db (List Permission)
  unfolding wrap_db_err
  get_child_permissions_with_cte [] = pure []
  get_child_permissions_with_cte (id ∷ ids) = reads λ db.
      or_wrap "failed to retrieve child permissions with CTE"
        (wrap_db_err "repository Query" (repos.descend (id ∷ ids) db))

  -- DeleteRole: the callback of the transaction, and the method.
  unfoldable pub delete_role_rows : ℕ → Act Db (Unit {0})
  unfolding run_delete where_eq new_query_builder delete_by_id ◌>>=◌ wrapped
  delete_role_rows id = do
    wrapped "failed to delete role permissions" (
        run_delete repos.role_permission role_permission_model
          (where_eq (bytes "role_id") (num id) new_query_builder))
    wrapped "failed to delete role" (delete_by_id repos.role role_model id)

  unfoldable pub delete_role : Bool → ℕ → Act Db (Unit {0})
  unfolding delete_role_rows find_by_id transaction
  delete_role tx id = do
    wrapped "failed to retrieve role" (reads (find_by_id repos.role role_model id))
    transaction repos.session tx (λ _. delete_role_rows id)

  -- DeleteRoleBatch collects the errors in the order in which they come; no error is success.
  abbrev pub collect : Outcome (Unit {0}) → Outcome (List Error) → Outcome (List Error)
  collect (ok _) rest = rest
  collect (err e) (ok es) = ok (e ∷ es)
  collect (err e) rest = rest
  collect panic rest = panic

  unfoldable pub delete_role_batch : Bool → List ℕ → Db → Outcome (List Error) × Db
  unfolding delete_role
  delete_role_batch tx [] db = (ok [], db)
  delete_role_batch tx (id ∷ ids) db =
      let (r, db1) = delete_role tx id db in
      let (rest, db2) = delete_role_batch tx ids db1 in
      elim r [ panic ↦ (panic, db1) | other ↦ (collect other rest, db2) ]

  module _ (copier : Copier) where
    -- What CreateRole does in its transaction behind the insert.
    abbrev permit : Bool → ℕ → List ℕ → Act Db (Unit {0})
    permit tx role_id [] = pure tt
    permit tx role_id (id ∷ ids) =
        wrapped "failed to assign permissions to role"
          (assign_role_permissions tx role_id (id ∷ ids))

    unfoldable pub create_role_rows : Bool → List ℕ → Role → Act Db (RoleResponse × List Permission)
    unfolding create assign_role_permissions retrieve_permission_by_role_id ◌>>=◌ wrapped
    create_role_rows tx permission_ids role = do
      stored ← wrapped "failed to create role" (create repos.role role_model role)
      permit tx stored.id permission_ids
      result ← wrapped "failed to copy role to result" (reads (λ _. copier.role_response stored))
      permissions ←
          wrapped "failed to retrieve role permissions" (retrieve_permission_by_role_id stored.id)
      responses ←
          wrapped "failed to copy permissions to response"
            (reads (λ _. copier.permission_responses permissions))
      pure (result, responses)

    -- CreateRole
    unfoldable pub create_role : Bool → CreateRoleRequest → Act Db RoleResponse
    unfolding create_role_rows transaction
    create_role tx req = do
      role ← wrapped "failed to copy request to role" (reads (λ _. copier.create_role req))
      result ←
          transaction repos.session tx (λ in_tx. create_role_rows in_tx req.permission_ids role)
      pure (record result.0 { permissions = result.1 })

    abbrev permit_if_set : Bool → ℕ → Option (List ℕ) → Act Db (Unit {0})
    permit_if_set tx role_id none = pure tt
    permit_if_set tx role_id (some ids) =
        wrapped "failed to assign permissions to role" (assign_role_permissions tx role_id ids)

    -- The end that UpdateRole and GetRole share: the response with the role's permissions.
    abbrev respond : Role → Act Db RoleResponse
    respond role = do
      result ← wrapped "failed to copy role to result" (reads (λ _. copier.role_response role))
      permissions ←
          wrapped "failed to retrieve role permissions" (retrieve_permission_by_role_id role.id)
      responses ←
          wrapped "failed to copy permissions to response"
            (reads (λ _. copier.permission_responses permissions))
      pure (record result { permissions = responses })

    -- UpdateRole
    unfoldable pub update_role : Bool → UpdateRoleRequest → Act Db RoleResponse
    unfolding find_by_id update assign_role_permissions retrieve_permission_by_role_id ◌>>=◌ wrapped
    update_role tx req = do
      found ← wrapped "failed to retrieve role" (reads (find_by_id repos.role role_model req.id))
      role ← wrapped "failed to copy request to role" (reads (λ _. copier.update_role req found))
      wrapped "failed to update role" (update repos.role role_model role)
      permit_if_set tx role.id req.permission_ids
      respond role

    -- GetRole
    unfoldable pub get_role : ℕ → Act Db RoleResponse
    unfolding find_by_id retrieve_permission_by_role_id ◌>>=◌ wrapped
    get_role id = do
      role ← wrapped "failed to retrieve role" (reads (find_by_id repos.role role_model id))
      respond role

    -- GetRolePermissions
    unfoldable pub get_role_permissions : ℕ → Act Db (List Permission)
    unfolding retrieve_permission_by_role_id ◌>>=◌ wrapped
    get_role_permissions role_id = do
      permissions ←
          wrapped "failed to retrieve role permissions" (retrieve_permission_by_role_id role_id)
      wrapped "failed to copy permissions to result"
          (reads (λ _. copier.permission_responses permissions))

    -- The loop that gives each role of a list its permissions; `responses` are the copies of the
    -- roles, and an index beyond them panics.
    unfoldable pub expand : String → List Role → List RoleResponse → Act Db (List RoleResponse)
    unfolding retrieve_permission_by_role_id ◌>>=◌ wrapped
    expand message [] responses = pure responses
    expand message (role ∷ roles) [] = λ db. (panic, db)
    expand message (role ∷ roles) (response ∷ responses) = do
      permissions ← wrapped message (retrieve_permission_by_role_id role.id)
      copies ←
          wrapped "failed to copy permissions to response"
            (reads (λ _. copier.permission_responses permissions))
      rest ← expand message roles responses
      pure (record response { permissions = copies } ∷ rest)

    abbrev pub expand_if :
        Bool → String → List Role → List RoleResponse → Act Db (List RoleResponse)
    expand_if false message roles responses = pure responses
    expand_if true message roles responses = expand message roles responses

    -- GetRoleList; `query` is what reflection sees of the request.
    unfoldable pub get_role_list : List Field → ℤ → ℤ → ℕ → Act Db (List RoleResponse × ℕ)
    unfolding find_page has_flag expand ◌>>=◌ wrapped
    get_role_list query limit offset flags = do
      page ←
          wrapped "failed to retrieve roles"
            (reads (find_page repos.role role_model query limit offset))
      responses ←
          wrapped "failed to copy roles to result" (reads (λ _. copier.role_responses page.0))
      result ←
          expand_if (has_flag flags include_permission) "failed to retrieve role permissions" page.0
            responses
      pure (result, page.1)
