-- ===== src/Iam/Checker/Reads.antt =====
-- The queries behind HasPermission of internal/modules/iam/service/permission_checker.go only read.
use go_admin.Common.{ℕ, ◌≡◌, refl, List, [], ◌∷◌, ◌++◌, ◌∙◌, map, String}
use go_admin.Outcome.{Outcome, ok, err, panic, Act, continue, ◌>>=◌, wrapped, pure}
use go_admin.Outcome.Laws.{ReadsOnly}
use go_admin.Iam.Model.{Role, Permission}
use go_admin.Iam.Model.Tables.{Repositories}
use go_admin.Iam.RoleService.{retrieve_permission_by_role_id, get_child_permissions_with_cte}
use go_admin.Iam.UserRoleService.{retrieve_roles_by_user_id}
use go_admin.Users.Model.{UserFinder}
use go_admin.Iam.Checker.{uniq_by_id, permissions_of_roles, with_children, get_user_all_permissions}

module _ {S A B : Type 0} where
  >>=-ReadsOnly :
      (m : Act S A) (f : A → Act S B)
      → ReadsOnly m
      → ((a : A) → ReadsOnly (f a))
      → ReadsOnly (m >>= f)
  unfolding ◌>>=◌
  >>=-ReadsOnly m f hm hf s = go (m s).0 (m s).1 (hm s)
    where
      go : (r : Outcome A) (u : S) → u ≡ s → (continue r f u).1 ≡ s
      go (ok a) u e = hf a u ∙ e
      go (err x) u e = e
      go panic u e = e

module _ {S A : Type 0} where
  wrapped-ReadsOnly : (message : String) (m : Act S A) → ReadsOnly m → ReadsOnly (wrapped message m)
  unfolding wrapped
  wrapped-ReadsOnly message m h s = h s

module _ {Db : Type 0} (repos : Repositories Db) (finder : UserFinder Db) where
  retrieve_permission_by_role_id-ReadsOnly :
      (id : ℕ) → ReadsOnly (retrieve_permission_by_role_id repos id)
  unfolding retrieve_permission_by_role_id
  retrieve_permission_by_role_id-ReadsOnly id = >>=-ReadsOnly _ _ (λ _. refl) (λ _ _. refl)

  get_child_permissions_with_cte-ReadsOnly :
      (ids : List ℕ) → ReadsOnly (get_child_permissions_with_cte repos ids)
  unfolding get_child_permissions_with_cte
  get_child_permissions_with_cte-ReadsOnly [] = λ _. refl
  get_child_permissions_with_cte-ReadsOnly (id ∷ ids) = λ _. refl

  retrieve_roles_by_user_id-ReadsOnly :
      (id : ℕ) → ReadsOnly (retrieve_roles_by_user_id repos finder id)
  unfolding retrieve_roles_by_user_id
  retrieve_roles_by_user_id-ReadsOnly id = >>=-ReadsOnly _ _ (λ _. refl) (λ _ _. refl)

  permissions_of_roles-ReadsOnly :
      (roles : List Role) → ReadsOnly (permissions_of_roles repos finder roles)
  unfolding permissions_of_roles
  permissions_of_roles-ReadsOnly [] = λ _. refl
  permissions_of_roles-ReadsOnly (role ∷ roles) =
      let of_role : Act Db (List Permission) = retrieve_permission_by_role_id repos role.id in
      let of_rest : Act Db (List Permission) = permissions_of_roles repos finder roles in
      >>=-ReadsOnly (wrapped "failed to retrieve role permissions" of_role)
        (λ perms. of_rest >>= λ rest. pure (perms ++ rest))
        (wrapped-ReadsOnly "failed to retrieve role permissions" of_role
          (retrieve_permission_by_role_id-ReadsOnly role.id))
        (λ perms.
          >>=-ReadsOnly of_rest (λ rest. pure (perms ++ rest))
            (permissions_of_roles-ReadsOnly roles) (λ _ _. refl))

  with_children-ReadsOnly : (ps : List Permission) → ReadsOnly (with_children repos finder ps)
  unfolding with_children
  with_children-ReadsOnly [] = λ _. refl
  with_children-ReadsOnly (p ∷ ps) =
      let ids : List ℕ = map (λ q. q.id) (p ∷ ps) in
      let children : Act Db (List Permission) = get_child_permissions_with_cte repos ids in
      >>=-ReadsOnly (wrapped "failed to retrieve child permissions" children)
        (λ cs. pure (uniq_by_id ((p ∷ ps) ++ cs)))
        (wrapped-ReadsOnly "failed to retrieve child permissions" children
          (get_child_permissions_with_cte-ReadsOnly ids))
        (λ _ _. refl)

  -- The whole query leaves the database as it was.
  pub get_user_all_permissions-ReadsOnly :
      (user_id : ℕ) → ReadsOnly (get_user_all_permissions repos finder user_id)
  unfolding get_user_all_permissions
  get_user_all_permissions-ReadsOnly user_id =
      let roles_of_user : Act Db (List Role) = retrieve_roles_by_user_id repos finder user_id in
      >>=-ReadsOnly (wrapped "failed to retrieve user roles" roles_of_user)
        (λ roles. permissions_of_roles repos finder roles >>= with_children repos finder)
        (wrapped-ReadsOnly "failed to retrieve user roles" roles_of_user
          (retrieve_roles_by_user_id-ReadsOnly user_id))
        (λ roles.
          >>=-ReadsOnly (permissions_of_roles repos finder roles) (with_children repos finder)
            (permissions_of_roles-ReadsOnly roles) with_children-ReadsOnly)
