-- ===== src/Tests/Iam.antt =====
-- internal/modules/iam at concrete inputs.
use go_admin.Common.{
  ℕ, ◌≡◌, refl, ap, ◌↔◌, ◌⊎◌, inl, inr, true, false, none, some, List, [], ◌∷◌, pos, Bytes, bytes,
  Elem, nat_eq, filter, contains, arith,
}
use go_admin.Outcome.{ok, err, new}
use go_admin.Store
use go_admin.Store.{Memory}
use go_admin.Store.View.{view}
use go_admin.Repository.Quote.{quote_ident}
use go_admin.Repository.Query.{
  condition_to_cond, where_in, where_eq, where_op, new_query_builder, apply_filters,
}
use go_admin.Repository.Meta.{build_filters}
use go_admin.Repository.Db.{Session, Table}
use go_admin.Repository.Db.Atomic.{is_ok}
use go_admin.Iam.Links.{assign_links}
use go_admin.Iam.Links.Assign.{Replaced, assign_links-Replaced, assign_links_failed}
use go_admin.Iam.Model.{UserRole, Role, Permission, fields_of_user_role}
use go_admin.Iam.Model.Tables.{Repositories, user_role_links, user_role_messages}
use go_admin.Iam.Model.Columns.{user_role-LinkLaws}
use go_admin.Users.Model.{blank_user, User, UserFinder}
use go_admin.Iam.Checker.{
  key_of, permission_paths, match_path, Checker, Readings, get_user_all_permissions, has_permission,
}
use go_admin.Iam.Checker.Match.{IsWildcard, match_path_iff, match_path_continues}
use go_admin.Iam.Checker.Cache.{
  answer_of, IsCurrent, has_permission-answer, has_permission-IsCurrent,
}
use go_admin.Tests.Tables.{
  user_roles, user_role_sat, user_roles-UserRoleLaws, plain_session, plain_session-SessionLaws,
}

abbrev pub link : ℕ → ℕ → ℕ → UserRole
link id user_id role_id = record { id = id; user_id = user_id; role_id = role_id }

abbrev three_links : List UserRole
three_links = link 1 1 10 ∷ link 2 1 20 ∷ link 3 2 20 ∷ []

abbrev assigned : List UserRole
assigned = link 2 1 20 ∷ link 3 2 20 ∷ link 0 1 30 ∷ []

-- User 1 loses role 10, keeps 20 and gets 30.
assign_20_30 :
    assign_links plain_session
      (user_role_links user_roles)
      user_role_messages
      false
      1
      (20 ∷ 30 ∷ [])
      three_links
    ≡ (ok tt, assigned)
unfolding assign_links build_filters fields_of_user_role apply_filters where_op where_in where_eq
    new_query_builder filter contains condition_to_cond quote_ident
assign_20_30 = refl

assign_links-Replaced_example :
    Replaced plain_session
      (user_role_links user_roles)
      user_role_messages
      (λ db. db)
      user_role_sat
      (user_role-LinkLaws user_roles (λ db. db) user_role_sat user_roles-UserRoleLaws)
      1
      (20 ∷ 30 ∷ [])
      three_links
      assigned
assign_links-Replaced_example =
    assign_links-Replaced plain_session (user_role_links user_roles) user_role_messages (λ db. db)
      user_role_sat (user_role-LinkLaws user_roles (λ db. db) user_role_sat user_roles-UserRoleLaws)
      plain_session-SessionLaws false 1 (20 ∷ 30 ∷ []) three_links assigned (λ e. cc e) assign_20_30

-- A session whose commits fail.
abbrev refusing_session : Session (List UserRole)
refusing_session = record plain_session { commit = λ tx. (err (new "refused"), tx) }

refusing_session-fails :
    is_ok
      (assign_links refusing_session
        (user_role_links user_roles)
        user_role_messages
        false
        1
        (20 ∷ 30 ∷ [])
        three_links).0
    ≡ false
unfolding assign_links build_filters fields_of_user_role apply_filters where_op where_in where_eq
    new_query_builder filter contains condition_to_cond quote_ident
refusing_session-fails = refl

assign_links_failed_example :
    (assign_links refusing_session
      (user_role_links user_roles)
      user_role_messages
      false
      1
      (20 ∷ 30 ∷ [])
      three_links).1
    ≡ three_links
assign_links_failed_example =
    assign_links_failed refusing_session (user_role_links user_roles) user_role_messages (λ db. db)
      user_role_sat (user_role-LinkLaws user_roles (λ db. db) user_role_sat user_roles-UserRoleLaws)
      (record {
        begin_ok = plain_session-SessionLaws.begin_ok;
        commit_ok = λ tx tx' h. absurd (cc (ap (λ r. r.0) h));
        commit_failed = λ tx h. refl;
        rollback_lem = λ tx. refl;
        close_lem = λ tx. refl;
      })
      1 (20 ∷ 30 ∷ []) three_links refusing_session-fails

-- A database with one role, which has one permission, for every user.
abbrev pub fixed : {T : Type 0} → List T → Table (Unit {0}) T
fixed xs = record {
  find = λ q db. ok xs;
  count = λ c db. ok 1;
  insert = λ ms db. (ok ms, db);
  update = λ id m db. (ok tt, db);
  delete = λ c m db. (ok tt, db);
}

abbrev pub list_users : Permission
list_users = record {
  id = 7;
  name = [];
  code = [];
  description = [];
  parent_id = 0;
  kind = 0;
  path = bytes "/api/user/*";
  method = bytes "GET";
  status = 1;
  create_time = 0;
  update_time = 0;
}

abbrev pub admin : Role
admin = record {
  id = 3;
  name = [];
  code = bytes "admin";
  description = [];
  status = 1;
  create_time = 0;
  update_time = 0;
}

abbrev pub repos : Repositories (Unit {0})
repos = record {
  session = plain_session;
  role = fixed (admin ∷ []);
  permission = fixed (list_users ∷ []);
  user_role = fixed (link 1 1 3 ∷ []);
  role_permission = fixed (record { id = 1; role_id = 3; permission_id = 7 } ∷ []);
  descend = λ ids db. ok [];
}

abbrev pub root_user : User
root_user = record blank_user { id = 1; username = bytes "root"; status = 1 }

abbrev pub finder : UserFinder (Unit {0})
finder = record {
  find_by_id = λ id db. ok root_user;
  find_by_username = λ name db. ok root_user;
  verify_password = λ user password. true;
}

abbrev granted_keys : List Bytes
granted_keys = bytes "GET:/api/user/*" ∷ []

-- The keys of user 1 are in the cache up to time 100.
abbrev warm : Checker (Unit {0})
warm = record {
  db = tt;
  cache = record {
    default_ttl = pos 50;
    m = (1, record { value = granted_keys; expires_at = some 100 }) ∷ [];
  };
}

abbrev at_60 : Readings
at_60 = record { at_get = 60; at_set = 60; at_cleanup = 60 }

permissions_of_user :
    (user_id : ℕ) → (get_user_all_permissions repos finder user_id tt).0 ≡ ok (list_users ∷ [])
unfolding get_user_all_permissions contains where_eq
permissions_of_user user_id = refl

warm-view :
    (t user_id : ℕ)
    → (view t warm.cache user_id ≡ none) ⊎ (view t warm.cache user_id ≡ some granted_keys)
unfolding view Store.lookup Store.is_expired
warm-view t user_id = ground arith

warm-IsCurrent : (t : ℕ) → IsCurrent repos finder t warm
unfolding permission_paths
warm-IsCurrent t user_id = elim (warm-view t user_id) [
  | inl gone ↦ rw gone tt
  | inr there ↦ rw there (list_users ∷ [], permissions_of_user user_id, keys)
]
  where
    keys : granted_keys ≡ permission_paths (list_users ∷ [])
    keys = refl

has_permission-answer_example :
    (has_permission repos finder at_60 1 (bytes "GET") (bytes "/api/user/9") warm).0
    ≡ answer_of (bytes "GET") (bytes "/api/user/9") (get_user_all_permissions repos finder 1 tt).0
has_permission-answer_example =
    has_permission-answer repos finder at_60 1 (bytes "GET") (bytes "/api/user/9") warm
      (warm-IsCurrent 60)

has_permission-IsCurrent_example :
    IsCurrent repos finder 70
      (has_permission repos finder at_60 2 (bytes "GET") (bytes "/api/user/9") warm).1
has_permission-IsCurrent_example =
    has_permission-IsCurrent repos finder at_60 2 (bytes "GET") (bytes "/api/user/9") 70 warm
      (unfold Store.lookup in (refl, tt)) (omega arith) (omega arith) (warm-IsCurrent 70)

match_path_iff_example : (match_path granted_keys (bytes "GET") (bytes "/api/user/9") ≡ true) ↔ (
    Elem (key_of (bytes "GET") (bytes "/api/user/9")) granted_keys
    ⊎ IsWildcard granted_keys (bytes "GET") (bytes "/api/user/9"))
match_path_iff_example = match_path_iff granted_keys (bytes "GET") (bytes "/api/user/9")

-- The key for /api/user/* grants /api/username.
grants_a_longer_name : match_path granted_keys (bytes "GET") (bytes "/api/username") ≡ true
grants_a_longer_name =
    match_path_continues granted_keys (bytes "GET") (bytes "/api/user") (bytes "name") no_colon
      (inl refl)
  where
    no_colon : ¬ Elem b':' (bytes "GET")
    no_colon = ground arith

not_with_another_method : match_path granted_keys (bytes "POST") (bytes "/api/user/9") ≡ false
unfolding match_path
not_with_another_method = refl
