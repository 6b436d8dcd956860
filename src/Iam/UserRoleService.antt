-- ===== src/Iam/UserRoleService.antt =====
-- internal/modules/iam/service/user_role_service.go. The user module is seen through the narrow
-- interface of internal/modules/user/service/user_finder.go.
pub mod Priority
use go_admin.Common.{
  ℕ, Bool, Option, none, some, List, [], ◌∷◌, map, bytes, Bytes, ltb, if◌then◌else◌,
}
use go_admin.Outcome.{Outcome, ok, or_wrap, Act, ◌>>=◌, ◌>>◌, wrapped, pure, reads}
use go_admin.Repository.Query.{num, nums, new_query_builder, where_eq, where_in}
use go_admin.Repository.Crud.{run_find}
use go_admin.Iam.Links.{assign_links}
use go_admin.Iam.Model.{
  Role, UserRole, role_model, user_role_model, RoleResponse, has_flag, include_permission,
}
use go_admin.Iam.Model.Tables.{Repositories, user_role_links, user_role_messages}
use go_admin.Iam.RoleService.{Copier, expand, expand_if}
use go_admin.Users.Model.{User, UserFinder}

-- UserRolesResponse
pub record UserRolesResponse : Type 0 where
  pub id : ℕ
  pub username : Bytes
  pub email : Bytes
  pub roles : List RoleResponse

-- fetchHighestPriorityRole: the loop keeps the first role with the least id.
unfoldable pub highest : RoleResponse → List RoleResponse → RoleResponse
highest best [] = best
highest best (role ∷ roles) = highest (if ltb role.id best.id then role else best) roles

unfoldable pub fetch_highest_priority_role : List RoleResponse → Option RoleResponse
unfolding highest
fetch_highest_priority_role [] = none
fetch_highest_priority_role (role ∷ roles) = some (highest role (role ∷ roles))

module _ {Db : Type 0} (repos : Repositories Db) (finder : UserFinder Db) where
  -- assignUserRoles
  unfoldable pub assign_user_roles : Bool → ℕ → List ℕ → Act Db (Unit {0})
  unfolding assign_links
  assign_user_roles tx user_id role_ids =
      assign_links repos.session (user_role_links repos.user_role) user_role_messages tx user_id
        role_ids

  -- AssignRoles
  unfoldable pub assign_roles : Bool → ℕ → List ℕ → Act Db (Unit {0})
  unfolding assign_user_roles ◌>>=◌ wrapped
  assign_roles tx user_id role_ids = do
    wrapped "failed to retrieve user" (reads (finder.find_by_id user_id))
    assign_user_roles tx user_id role_ids

  abbrev roles_of : List UserRole → Db → Outcome (List Role)
  roles_of [] db = ok []
  roles_of (ur ∷ urs) db = or_wrap "query Role failed" (
      run_find repos.role role_model
        (where_in (bytes "id") (nums (map (λ r. r.role_id) (ur ∷ urs))) new_query_builder) db)

  -- RetrieveRolesByUserID
  unfoldable pub retrieve_roles_by_user_id : ℕ → Act Db (List Role)
  unfolding run_find where_eq where_in new_query_builder ◌>>=◌
  retrieve_roles_by_user_id user_id = do
    urs ← reads λ db. or_wrap "query UserRole failed" (
        run_find repos.user_role user_role_model
          (where_eq (bytes "user_id") (num user_id) new_query_builder) db)
    reads (roles_of urs)

  module _ (copier : Copier) where
    -- RetrieveRoleResponsesByUserID
    unfoldable pub retrieve_role_responses_by_user_id : ℕ → ℕ → Act Db (List RoleResponse)
    unfolding retrieve_roles_by_user_id has_flag expand ◌>>=◌ wrapped
    retrieve_role_responses_by_user_id user_id flags = do
      roles ← wrapped "failed to retrieve user roles" (retrieve_roles_by_user_id user_id)
      responses ←
          wrapped "failed to copy roles to response" (reads (λ _. copier.role_responses roles))
      expand_if repos copier (has_flag flags include_permission)
          "failed to retrieve role permissions" roles responses

    -- GetUserRoles
    unfoldable pub get_user_roles : ℕ → ℕ → Act Db UserRolesResponse
    unfolding retrieve_role_responses_by_user_id ◌>>=◌ wrapped
    get_user_roles user_id flags = do
      user ← wrapped "failed to retrieve user" (reads (finder.find_by_id user_id))
      roles ←
          wrapped "failed to retrieve user roles" (retrieve_role_responses_by_user_id user_id flags)
      pure (record { id = user.id; username = user.username; email = user.email; roles = roles })
