-- ===== src/Iam/Checker.antt =====
-- internal/modules/iam/service/permission_checker.go, with the cache of
-- internal/modules/iam/cache/permission_cache.go, which is the map of pkg/store/memory.go. A Go set
-- of strings, `map[string]bool`, is the list of its members.
pub mod Match
pub mod Reads
pub mod Unique
pub mod Cache
use go_admin.Common.{
  ℕ, zero, ◌+◌, Bool, true, false, ◌&&◌, ◌||◌, not, Option, none, some, List, [], ◌∷◌, ◌++◌, map,
  Bytes, bytes, if◌then◌else◌, ◌==◌, nat_eq, text_eq, contains, cut, has_prefix, has_suffix,
  trim_suffix, ℤ,
}
use go_admin.Outcome.{Error, Outcome, ok, err, panic, or_wrap, Act, ◌>>=◌, wrapped, pure, reads}
use go_admin.Store
use go_admin.Store.{Memory}
use go_admin.Iam.Model.{Role, Permission}
use go_admin.Iam.Model.Tables.{Repositories}
use go_admin.Iam.RoleService.{retrieve_permission_by_role_id, get_child_permissions_with_cte}
use go_admin.Iam.UserRoleService.{retrieve_roles_by_user_id}
use go_admin.Users.Model.{UserFinder}

-- "method:path"
abbrev pub key_of : Bytes → Bytes → Bytes
key_of method path = method ++ b':' ∷ path

-- The keys of the permissions with a method and a path, in the loop of HasPermission; the loop of
-- GetUserPermissionPaths is the same.
unfoldable pub permission_paths : List Permission → List Bytes
permission_paths [] = []
permission_paths (perm ∷ perms) =
    let rest = permission_paths perms in
    if not (perm.method == []) && not (perm.path == [])
    then key_of perm.method perm.path ∷ rest
    else rest

-- What the loop of matchPath asks of one key.
abbrev pub key_matches : Bytes → Bytes → Bytes × Option Bytes → Bool
key_matches method path (perm_method, none) = false
key_matches method path (perm_method, some perm_path) =
    (perm_method == method || perm_method == bytes "*")
    && (has_suffix perm_path (bytes "/*") && has_prefix path (trim_suffix perm_path (bytes "/*")))

abbrev pub any_matches : Bytes → Bytes → List Bytes → Bool
any_matches method path [] = false
any_matches method path (key ∷ keys) =
    key_matches method path (cut b':' key) || any_matches method path keys

-- matchPath
unfoldable pub match_path : List Bytes → Bytes → Bytes → Bool
unfolding contains
match_path permission_map method path =
    contains permission_map (key_of method path) || any_matches method path permission_map

-- lo.UniqBy on the id: the first of the rows with an id stays.
unfoldable pub uniq_from : List ℕ → List Permission → List Permission
unfolding contains
uniq_from seen [] = []
uniq_from seen (p ∷ ps) =
    let skipped = uniq_from seen ps in
    let taken = uniq_from (p.id ∷ seen) ps in if contains seen p.id then skipped else p ∷ taken

unfoldable pub uniq_by_id : List Permission → List Permission
unfolding uniq_from
uniq_by_id ps = uniq_from [] ps

module _ {Db : Type 0} (repos : Repositories Db) (finder : UserFinder Db) where
  -- The loop over the roles.
  unfoldable pub permissions_of_roles : List Role → Act Db (List Permission)
  unfolding retrieve_permission_by_role_id ◌>>=◌ wrapped
  permissions_of_roles [] = pure []
  permissions_of_roles (role ∷ roles) = do
    perms ←
        wrapped "failed to retrieve role permissions" (retrieve_permission_by_role_id repos role.id)
    rest ← permissions_of_roles roles
    pure (perms ++ rest)

  -- The early return on no permissions, and the descendants.
  unfoldable pub with_children : List Permission → Act Db (List Permission)
  unfolding get_child_permissions_with_cte uniq_by_id ◌>>=◌ wrapped
  with_children [] = pure []
  with_children (p ∷ ps) = do
    children ←
        wrapped "failed to retrieve child permissions"
          (get_child_permissions_with_cte repos (map (λ q. q.id) (p ∷ ps)))
    pure (uniq_by_id ((p ∷ ps) ++ children))

  -- getUserAllPermissions
  unfoldable pub get_user_all_permissions : ℕ → Act Db (List Permission)
  unfolding retrieve_roles_by_user_id permissions_of_roles with_children ◌>>=◌ wrapped
  get_user_all_permissions user_id = do
    roles ← wrapped "failed to retrieve user roles" (retrieve_roles_by_user_id repos finder user_id)
    permissions ← permissions_of_roles roles
    with_children permissions

  -- GetUserPermissionPaths
  unfoldable pub get_user_permission_paths : ℕ → Act Db (List Bytes)
  unfolding get_user_all_permissions permission_paths ◌>>=◌ wrapped
  get_user_permission_paths user_id = do
    permissions ← wrapped "failed to retrieve user permissions" (get_user_all_permissions user_id)
    pure (permission_paths permissions)

-- PermissionCache, InMemoryCache
abbrev pub PermissionCache : Type 0
PermissionCache = Memory ℕ (List Bytes)

-- The database with the cache of the process.
pub record Checker (Db : Type 0) : Type 0 where
  pub db : Db
  pub cache : PermissionCache

-- The clock's readings during one call: by Get, by Set and by the cleanup behind it.
pub record Readings : Type 0 where
  pub at_get : ℕ
  pub at_set : ℕ
  pub at_cleanup : ℕ

module _ {Db : Type 0} (repos : Repositories Db) (finder : UserFinder Db) where
  -- HasPermission behind a cache miss: the query's outcome decides.
  abbrev pub remember :
      Readings
      → ℕ
      → Bytes
      → Bytes
      → PermissionCache
      → Outcome (List Permission) × Db
      → Outcome Bool × Checker Db
  remember now user_id method path cache (ok permissions, db) =
      let keys = permission_paths permissions in
      (
        ok (match_path keys method path),
        record { db = db; cache = Store.set now.at_set now.at_cleanup user_id keys cache },
      )
  remember now user_id method path cache (err e, db) = (err e, record { db = db; cache = cache })
  remember now user_id method path cache (panic, db) = (panic, record { db = db; cache = cache })

  abbrev pub decide :
      Readings
      → ℕ
      → Bytes
      → Bytes
      → Db
      → Option (List Bytes) × PermissionCache
      → Outcome Bool × Checker Db
  decide now user_id method path db (some keys, cache) =
      (ok (match_path keys method path), record { db = db; cache = cache })
  decide now user_id method path db (none, cache) = remember now user_id method path cache (
      wrapped "failed to retrieve user permissions" (get_user_all_permissions repos finder user_id)
        db)

  -- HasPermission
  unfoldable pub has_permission : Readings → ℕ → Bytes → Bytes → Act (Checker Db) Bool
  unfolding get_user_all_permissions permission_paths match_path wrapped Store.get Store.set
  has_permission now user_id method path c =
      decide now user_id method path c.db (Store.get now.at_get user_id c.cache)

-- InvalidateUser, InvalidateAll
unfoldable pub invalidate_user : {Db : Type 0} → ℕ → Checker Db → Checker Db
unfolding Store.delete
invalidate_user user_id c = record c { cache = Store.delete user_id c.cache }

unfoldable pub invalidate_all : {Db : Type 0} → Checker Db → Checker Db
unfolding Store.clear
invalidate_all c = record c { cache = Store.clear c.cache }
