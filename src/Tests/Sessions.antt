-- ===== src/Tests/Sessions.antt =====
-- Login and refresh, the choice of a role and the ids of permissions at concrete inputs.
use go_admin.Common.{ℕ, ◌≡◌, ◌≢◌, refl, some, List, [], ◌∷◌, bytes, text_eq}
use go_admin.Outcome.{ok, panic, Act}
use go_admin.Repository.Query.{where_eq}
use go_admin.Iam.Model.{Permission, RoleResponse, has_flag}
use go_admin.Iam.RoleService.{Copier}
use go_admin.Iam.UserRoleService.{fetch_highest_priority_role}
use go_admin.Iam.Checker.{uniq_by_id}
use go_admin.Auth.Jwt.{Claims, TokenPair, Jwt, Fresh, parse_token}
use go_admin.Auth.Service.{login, refresh_token}
use go_admin.Auth.Issue.{IsRefresh, refresh_token-eq-ok}
use go_admin.Tests.Iam.{repos, finder, list_users}

abbrev response : ℕ → RoleResponse
response id = record {
  id = id;
  name = [];
  code = bytes "admin";
  description = [];
  status = 1;
  permissions = [];
  create_time = 0;
  update_time = 0;
}

the_role_with_id_2 :
    fetch_highest_priority_role (response 3 ∷ response 2 ∷ response 5 ∷ []) ≡ some (response 2)
unfolding fetch_highest_priority_role
the_role_with_id_2 = refl

abbrev repeated : List Permission
repeated = list_users ∷ list_users ∷ []

kept_once : uniq_by_id repeated ≡ list_users ∷ []
unfolding uniq_by_id
kept_once = refl

abbrev copier : Copier
copier = record {
  create_role = λ req. panic;
  update_role = λ req role. panic;
  role_response = λ role. ok (response role.id);
  role_responses = λ roles. ok (response 3 ∷ []);
  permission_responses = λ ps. ok ps;
}

-- A token is the type of its claims.
abbrev jwt : Jwt
jwt = record {
  library = record {
    sign = λ c. ok c.token_type;
    parse = λ now token. ok (record {
      identity = bytes "1";
      nice = bytes "root";
      role_key = bytes "admin";
      token_type = token;
      id = bytes "t1";
      expires_at = some 100;
    });
    numeric_date = λ t. t;
  };
  token_expiration = 50;
  refresh_token_expiration = 90;
}

abbrev fresh : Fresh
fresh = record {
  access_id = bytes "t1";
  refresh_id = bytes "t2";
  at_access = 10;
  at_refresh = 11;
  at_end = 12;
}

abbrev pair : TokenPair
pair = record { access_token = bytes "access"; refresh_token = bytes "refresh"; expires_at = 0 }

abbrev record_login : ℕ → Act (Unit {0}) (Unit {0})
record_login id db = (ok tt, db)

logged_in :
    login repos finder copier record_login jwt fresh (bytes "root") (bytes "secret") tt
    ≡ (ok pair, tt)
unfolding login has_flag where_eq
logged_in = refl

refreshed :
    refresh_token repos finder copier record_login jwt 20 fresh (bytes "refresh") tt ≡ (ok pair, tt)
unfolding refresh_token has_flag where_eq
refreshed = refl

refresh_token-eq-ok_example :
    (bytes "refresh" ≢ [])
    × ((claims : Claims) × (parse_token jwt 20 (bytes "refresh") ≡ ok claims)
        × IsRefresh repos finder copier record_login jwt fresh claims pair)
refresh_token-eq-ok_example =
    refresh_token-eq-ok repos finder copier record_login jwt fresh 20 (bytes "refresh") tt tt pair
      refreshed
